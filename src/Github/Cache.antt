-- ===== src/Github/Cache.antt =====
-- helper/github/client.go: one client for each installation.
use fireactions.Prelude.{
  Text, suc, ◌<◌, ◌≡◌, refl, ap, sym, ◌∙◌, inl, inr, true, List, [], ◌∷◌, Option, none, some, ok,
  Fault, ℤ, pos, negsuc, arith, Option-cases, Bool-cases, ◌⊎◌, ◌↔◌, subst, if◌then◌else◌,
}
use fireactions.Github.{Client, InstallationClient, new_client, same_id, installation}

-- The calls of Installation, one after the other.
unfoldable pub calls : List ℤ → Client → Client
calls [] c = c
calls (id ∷ ids) c = calls ids (installation id c).1

-- Every client that is kept was made for the installation that it is kept under, and before now.
pub record IsSound (c : Client) : Type 0 where
  pub kept :
      (id : ℤ) (k : InstallationClient)
      → c.installations id ≡ some k
      → (k.installation_id ≡ id) × (k.serial < c.made)
  pub apart :
      (i j : ℤ) (k l : InstallationClient)
      → c.installations i ≡ some k
      → c.installations j ≡ some l
      → k.serial ≡ l.serial
      → i ≡ j

same_id→eq : (i j : ℤ) → same_id i j ≡ true → i ≡ j
unfolding same_id
same_id→eq (pos m) (pos n) h = ground arith
same_id→eq (negsuc m) (negsuc n) h = ground arith
same_id→eq (pos m) (negsuc n) h = cc
same_id→eq (negsuc m) (pos n) h = cc

same_id_refl : (i : ℤ) → same_id i i ≡ true
unfolding same_id
same_id_refl (pos m) = ground arith
same_id_refl (negsuc m) = ground arith

fresh : ℤ → Client → InstallationClient
fresh id c = record { serial = c.made; installation_id = id }

added : ℤ → Client → Client
unfolding fresh
added id c = record {
  made = suc c.made;
  installations = λ i. if same_id id i then some (fresh id c) else c.installations i;
}

-- A call finds the client, or adds it.
data Called (id : ℤ) (c : Client) : Type 0 where
  found :
      (k : InstallationClient)
      → c.installations id ≡ some k
      → installation id c ≡ (k, c)
      → Called id c
  makes : c.installations id ≡ none → installation id c ≡ (fresh id c, added id c) → Called id c

installation-Called : (id : ℤ) (c : Client) → Called id c
unfolding installation fresh added
installation-Called id c = elim (Option-cases (c.installations id)) [
  | inl e ↦ makes e (rw (e, installation) refl)
  | inr (k, e) ↦ found k e (rw (e, installation) refl)
]

-- The client that a call gives is kept.
installation_kept :
    (id : ℤ) (c : Client) → (installation id c).1.installations id ≡ some (installation id c).0
unfolding added
installation_kept id c = elim (installation-Called id c) [
  | found k h e ↦ rw e h
  | makes h e ↦ rw e (rw (same_id_refl id) refl)
]

added_keeps :
    (id j : ℤ) (c : Client) (k : InstallationClient)
    → c.installations id ≡ none
    → c.installations j ≡ some k
    → (added id c).installations j ≡ some k
unfolding added
added_keeps id j c k h e = elim (Bool-cases (same_id id j)) [
  | inl b ↦
      let nothing : c.installations j ≡ none = ap c.installations (sym (same_id→eq id j b)) ∙ h in
      absurd (ground arith)
  | inr b ↦ rw b e
]

-- What is kept stays.
installation_keeps :
    (id j : ℤ) (c : Client) (k : InstallationClient)
    → c.installations j ≡ some k
    → (installation id c).1.installations j ≡ some k
installation_keeps id j c k h = elim (installation-Called id c) [
  | found l i e ↦ rw e h
  | makes i e ↦ rw e (added_keeps id j c k i h)
]

-- Where a client that is kept afterwards comes from.
added-Origin :
    (id j : ℤ) (c : Client) (k : InstallationClient)
    → (added id c).installations j ≡ some k
    → (c.installations j ≡ some k) ⊎ ((id ≡ j) × (k.installation_id ≡ id) × (k.serial ≡ c.made))
unfolding added fresh
added-Origin id j c k h = elim (Bool-cases (same_id id j)) [
  | inl b ↦
      let same : fresh id c ≡ k = ground arith in
      inr (same_id→eq id j b, rw (← same) refl, rw (← same) refl)
  | inr b ↦ inl (ground arith)
]

added-IsSound : (id : ℤ) (c : Client) → IsSound c → IsSound (added id c)
unfolding added
added-IsSound id c s = record {
  kept = λ j k h. elim (added-Origin id j c k h) [
    | inl e ↦ let (same, before) = s.kept j k e in (same, omega arith)
    | inr (e, i, n) ↦ (i ∙ e, omega arith)
  ];
  apart = λ i j k l h g e. elim (added-Origin id i c k h) [
    | inl h' ↦ elim (added-Origin id j c l g) [
      | inl g' ↦ s.apart i j k l h' g' e
      | inr (_, _, n) ↦ let (_, before) = s.kept i k h' in absurd (omega arith)
    ]
    | inr (x, _, n) ↦ elim (added-Origin id j c l g) [
      | inl g' ↦ let (_, before) = s.kept j l g' in absurd (omega arith)
      | inr (y, _, m) ↦ sym x ∙ y
    ]
  ];
}

installation-IsSound : (id : ℤ) (c : Client) → IsSound c → IsSound (installation id c).1
installation-IsSound id c s = elim (installation-Called id c) [
  | found k h e ↦ subst (λ r. IsSound r.1) (sym e) s
  | makes h e ↦ subst (λ r. IsSound r.1) (sym e) (added-IsSound id c s)
]

calls-IsSound : (ids : List ℤ) (c : Client) → IsSound c → IsSound (calls ids c)
unfolding calls
calls-IsSound [] c s = s
calls-IsSound (id ∷ ids) c s = calls-IsSound ids (installation id c).1 (installation-IsSound id c s)

-- What is kept stays.
calls-kept :
    (ids : List ℤ) (c : Client) (id : ℤ) (k : InstallationClient)
    → c.installations id ≡ some k
    → (calls ids c).installations id ≡ some k
unfolding calls
calls-kept [] c id k h = h
calls-kept (i ∷ ids) c id k h =
    calls-kept ids (installation i c).1 id k (installation_keeps i id c k h)

new-IsSound :
    (apps_transport : ℤ → Text → Option Fault) (app_id : ℤ) (key : Text) (c : Client)
    → new_client apps_transport app_id key ≡ ok c
    → IsSound c
unfolding new_client
new-IsSound t a k c h =
    let empty : Client = record { made = 0; installations = λ id. none } in
    let same : empty ≡ c = ground arith in
    let sound : IsSound empty = record { kept = λ i l e. cc; apart = λ i j l m e f. cc } in
    subst IsSound same sound

same_serial : {k l : InstallationClient} → some k ≡ some l → l.serial ≡ k.serial
same_serial e = cc

-- Of a client that NewClient has made, whatever calls of Installation have come: the client that a call
-- gives is for the installation that was asked for, a later call for that installation gives the same
-- client, whatever calls are in between, and a call for another installation gives another client.
pub installation-cached :
    (apps_transport : ℤ → Text → Option Fault) (app_id : ℤ) (key : Text) (new : Client)
    (before between : List ℤ) (i j : ℤ)
    → new_client apps_transport app_id key ≡ ok new
    → let first = installation i (calls before new) in
      let second = installation j (calls between first.1) in
      (first.0.installation_id ≡ i) × ((second.0.serial ≡ first.0.serial) ↔ (i ≡ j))
installation-cached t a key new before between i j h =
    let c = calls before new in
    let first = installation i c in
    let d = calls between first.1 in
    let sound = installation-IsSound j d (
      calls-IsSound between first.1
        (installation-IsSound i c (calls-IsSound before new (new-IsSound t a key new h)))) in
    let stays = calls-kept between first.1 i first.0 (installation_kept i c) in
    let stays_on = installation_keeps j i d first.0 stays in
    let kept = installation_kept j d in
    (
      (sound.kept i first.0 stays_on).0,
      (
        λ e. sound.apart i j first.0 (installation j d).0 stays_on kept (sym e),
        λ e. same_serial (sym stays_on ∙ ap (installation j d).1.installations e ∙ kept),
      ),
    )
