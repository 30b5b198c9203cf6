-- ===== src/Create/Cids.antt =====
-- server/pool.go and server/server.go: the CIDs that the machines of all pools get from one counter of
-- type atomic.Uint32.
use fireactions.Prelude.{
  ℕ, zero, suc, ◌+◌, Result, ok, refl, ◌∙◌, ◌≤◌, ◌<◌, ◌≡◌, ◌≢◌, arith, wrap32, inc32,
}
use fireactions.Create.{Host, Making, CreateError, take_cid, first_cid}

module _ {W : Type 0} (host : Host W) where
  -- What the n-th of the calls in a row gives, from 0 on.
  pub nth_cid : ℕ → Making W → Result CreateError ℕ
  nth_cid zero s = (take_cid host s).0
  nth_cid (suc n) s = nth_cid n (take_cid host s).1

  nth_cid_lem :
      (n : ℕ) (s : Making W) → (c : ℕ) × (nth_cid n s ≡ ok c) × (c ≡ wrap32 (s.next_cid + n + 1))
  unfolding nth_cid take_cid
  nth_cid_lem zero s = (inc32 s.next_cid, refl, omega arith)
  nth_cid_lem (suc n) s =
      let (c, e, v) = nth_cid_lem n (take_cid host s).1 in (c, e, v ∙ omega arith)

  -- From the server's first value of the counter on, no two of 2 ^ 32 machines in a row get one CID,
  -- and none of the first 2 ^ 32 - 3 gets one of the reserved CIDs 0, 1 and 2.
  pub nth_cid-distinct :
      (i j : ℕ) (s : Making W)
      → s.next_cid ≡ first_cid
      → i < j
      → j < i + 4294967296
      → (a b : ℕ) × (nth_cid i s ≡ ok a) × (nth_cid j s ≡ ok b) × (a ≢ b) × (i < 4294967293 → 3 ≤ a)
  nth_cid-distinct i j s start h k =
      let (a, ea, va) = nth_cid_lem i s in
      let (b, eb, vb) = nth_cid_lem j s in
      (a, b, ea, eb, omega (arith, va, vb, start), λ few. omega (arith, va, start))
