-- ===== src/Create/Paths.antt =====
-- server/pool.go: the sockets and logs of the machines of a pool.
use fireactions.Prelude.{
  Text, codes, ◌≤◌, ◌≡◌, ◌≢◌, ◌⊎◌, refl, sym, ap, ◌∙◌, List, ◌++◌, Result, Fault, All, All-map,
  All-append, length, length-append, arith, inl, inr,
}
use fireactions.Prelude.Paths.{slash, NoSlash, join, join-injective, append_assoc, append_split}
use fireactions.Pool.{Pool, get_dir}
use fireactions.Pool.Spec.{
  FileKind, log_file, socket, vsock_socket, firecracker_log, extension, machine_file,
}
use fireactions.StringId.{returns, new_id}
use fireactions.StringId.Accepted.{Filled, Identifier, IsHexDigit, new_id-Identifier}
use fireactions.Create.{runner_name}

extension-injective : (k l : FileKind) → extension k ≡ extension l → k ≡ l
extension-injective log_file log_file h = refl
extension-injective socket socket h = refl
extension-injective vsock_socket vsock_socket h = refl
extension-injective firecracker_log firecracker_log h = refl
extension-injective _ _ h = ground arith

extension-NoSlash : (k : FileKind) → NoSlash (extension k)
extension-NoSlash log_file = ground arith
extension-NoSlash socket = ground arith
extension-NoSlash vsock_socket = ground arith
extension-NoSlash firecracker_log = ground arith

hex-NoSlash : (id : Text) → All IsHexDigit id → NoSlash id
hex-NoSlash id h = All-map IsHexDigit (λ c. c ≢ slash) id (λ c d. ground arith) h

-- What follows the configured name in the name of a file.
ending : Text → FileKind → Text
ending id k = (codes "-" ++ id) ++ extension k

machine_file_lem :
    (p : Pool) (id : Text) (k : FileKind)
    → machine_file p (runner_name p.config.runner.name id) k
      ≡ join (get_dir p) (p.config.runner.name ++ ending id k)
unfolding machine_file ending
machine_file_lem p id k =
    ap (join (get_dir p)) (append_assoc p.config.runner.name (codes "-" ++ id) (extension k))

ending-NoSlash :
    (draws : List (Result Fault Text)) (id : Text) (k : FileKind)
    → Identifier draws id
    → NoSlash (ending id k) × (3 ≤ length (ending id k))
unfolding ending
ending-NoSlash draws id k i =
    let dash : (45 ≢ slash) = ground arith in
    (
      All-append (λ c. c ≢ slash) (codes "-" ++ id) (extension k) (dash, hex-NoSlash id i.hex)
          (extension-NoSlash k),
      omega (arith, length-append (codes "-" ++ id) (extension k), i.digits),
    )

machine_file-injective :
    (p : Pool) (ds es : List (Result Fault Text)) (i j : Text) (k l : FileKind)
    → All Filled ds
    → All Filled es
    → new_id ds ≡ returns i
    → new_id es ≡ returns j
    → machine_file p (runner_name p.config.runner.name i) k
      ≡ machine_file p (runner_name p.config.runner.name j) l
    → (i ≡ j) × (k ≡ l)
unfolding ending
machine_file-injective p ds es i j k l fd fe ri rj h =
    let a = new_id-Identifier ds i fd ri in
    let b = new_id-Identifier es j fe rj in
    let (free, long) = ending-NoSlash ds i k a in
    let (free', long') = ending-NoSlash es j l b in
    let same =
      join-injective (get_dir p) p.config.runner.name (ending i k) (ending j l) free free' long
        long' (sym (machine_file_lem p i k) ∙ (h ∙ machine_file_lem p j l)) in
    let (names, kinds) =
      append_split (codes "-" ++ i) (codes "-" ++ j) (omega (arith, a.digits, b.digits)) same in
    (cc, extension-injective k l kinds)

-- Two files of machines of a pool, each named with an identifier that stringid.New has returned, have
-- different paths, if the identifiers differ or the kinds of file do: the API sockets, the vsocks, and the
-- two logs of the machines that a pool creates do not meet. This holds whatever the configuration gives
-- for the names of the pool and of its runners.
pub machine_file-distinct :
    (p : Pool) (ds es : List (Result Fault Text)) (i j : Text) (k l : FileKind)
    → All Filled ds
    → All Filled es
    → new_id ds ≡ returns i
    → new_id es ≡ returns j
    → (i ≢ j) ⊎ (k ≢ l)
    → machine_file p (runner_name p.config.runner.name i) k
      ≢ machine_file p (runner_name p.config.runner.name j) l
machine_file-distinct p ds es i j k l fd fe ri rj (inl other) h =
    other (machine_file-injective p ds es i j k l fd fe ri rj h).0
machine_file-distinct p ds es i j k l fd fe ri rj (inr other) h =
    other (machine_file-injective p ds es i j k l fd fe ri rj h).1
