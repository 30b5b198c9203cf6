-- ===== src/Commands/Ready.antt =====
-- cmd/fireactions: what a run function may take for granted of its arguments and flags, and what it makes
-- of them.
use fireactions.Prelude.{
  Text, codes, ◌≡◌, refl, sym, Bool, List, [], ◌∷◌, Option, none, some, Result, ok, err, Fault, ℤ,
  length, arith, inl, inr, Option-cases, subst,
}
use fireactions.Commands.Tree.{
  Args, exact_args, no_args, nil_args, Flag, string, int, bool, Values, or_zero, Call, Ran, panics,
  create_client, calls, run_server_cmd, run_validate_cmd, run_agent_cmd, prints, with_first,
  on_client, endpoint_flag, named, unnamed, run_scale, run_logs, run_login, run_pools_list_cmd,
  run_image_list_cmd, run_ps_cmd, run_pools_pause_cmd, run_pools_resume_cmd, run_image_remove_cmd,
  run_login_cmd, run_pools_scale_cmd, run_logs_cmd,
}

-- cobra runs a command only with arguments that its Args accepts; nil accepts any.
abbrev pub Accepted : Args → List Text → Type 0
Accepted (exact_args n) args = length args ≡ n
Accepted no_args args = args ≡ []
Accepted nil_args args = Unit

-- A flag that is defined has a value of its type.
abbrev pub Defined : Values → Flag → Type 0
Defined v f = elim f.default [
  | string d ↦ (x : Text) × (v.get_string f.name ≡ ok x)
  | int d ↦ (x : ℤ) × (v.get_int f.name ≡ ok x)
  | bool d ↦ (x : Bool) × (v.get_bool f.name ≡ ok x)
]

abbrev pub Takes : Values → List Text → Call → Type 0
Takes v args run_pools_list_cmd = Unit
Takes v args run_image_list_cmd = Unit
Takes v args run_ps_cmd = Unit
Takes v args (run_pools_pause_cmd a) = args ≡ a ∷ []
Takes v args (run_pools_resume_cmd a) = args ≡ a ∷ []
Takes v args (run_image_remove_cmd a) = args ≡ a ∷ []
Takes v args (run_login_cmd a) = args ≡ a ∷ []
Takes v args (run_pools_scale_cmd a n) = (args ≡ a ∷ []) × (v.get_int (codes "replicas") ≡ ok n)
Takes v args (run_logs_cmd a follow n) =
    (args ≡ a ∷ []) × (v.get_bool (codes "follow") ≡ ok follow) × (v.get_int (codes "tail") ≡ ok n)

-- The run function has got what the user has said: no index is out of range, no flag that it reads is
-- undefined, so that no error that it drops is one, and the client is one for the endpoint flag.
abbrev pub Ready : Values → (Text → Option Fault) → List Text → Ran → Type 0
Ready v new_client args panics = ⊥
Ready v new_client args (create_client e) =
    (endpoint : Text) × (v.get_string (codes "endpoint") ≡ ok endpoint)
    × (new_client endpoint ≡ some e)
Ready v new_client args (calls endpoint c) =
    (v.get_string (codes "endpoint") ≡ ok endpoint) × (new_client endpoint ≡ none) × Takes v args c
Ready v new_client args (run_server_cmd file) = v.get_string (codes "config") ≡ ok file
Ready v new_client args (run_agent_cmd level) = v.get_string (codes "log-level") ≡ ok level
Ready v new_client args (run_validate_cmd file) = args ≡ file ∷ []
Ready v new_client args (prints text) = Unit

pub or_zero_lem :
    {A : Type 0} (z : A) (r : Result Fault A) {x : A} → r ≡ ok x → r ≡ ok (or_zero z r)
or_zero_lem z (ok a) h = refl
or_zero_lem z (err e) h = ground arith

on_client_fails :
    (v : Values) (new_client : Text → Option Fault) (f : Text → Ran) (endpoint : Text) (e : Fault)
    → v.get_string (codes "endpoint") ≡ ok endpoint
    → new_client endpoint ≡ some e
    → on_client v new_client f ≡ create_client e
unfolding on_client
on_client_fails v new_client f endpoint e h k = ground (arith, h, k)

on_client_goes :
    (v : Values) (new_client : Text → Option Fault) (f : Text → Ran) (endpoint : Text)
    → v.get_string (codes "endpoint") ≡ ok endpoint
    → new_client endpoint ≡ none
    → on_client v new_client f ≡ f endpoint
unfolding on_client
on_client_goes v new_client f endpoint h k = ground (arith, h, k)

module _ (v : Values) (new_client : Text → Option Fault) where
  on_client-Ready :
      (args : List Text) (f : Text → Ran)
      → Defined v endpoint_flag
      → ((endpoint : Text)
          → v.get_string (codes "endpoint") ≡ ok endpoint
          → new_client endpoint ≡ none
          → Ready v new_client args (f endpoint))
      → Ready v new_client args (on_client v new_client f)
  on_client-Ready args f (e, h) go = elim (Option-cases (new_client e)) [
    | inl k ↦ subst (Ready v new_client args) (sym (on_client_goes v new_client f e h k)) (go e h k)
    | inr (x, k) ↦
        subst (Ready v new_client args) (sym (on_client_fails v new_client f e x h k)) (e, h, k)
  ]

  pub named-Ready :
      (args : List Text) (f : Text → Call)
      → length args ≡ 1
      → Defined v endpoint_flag
      → ((a : Text) → args ≡ a ∷ [] → Takes v args (f a))
      → Ready v new_client args (named f v new_client args)
  named-Ready [] f one d t = absurd (omega (arith, one))
  named-Ready (a ∷ []) f one d t =
      on_client-Ready (a ∷ []) (λ e. calls e (f a)) d (λ e h k. (h, k, t a refl))
  named-Ready (a ∷ b ∷ rest) f one d t = absurd (omega (arith, one))

  pub scale-Ready :
      (args : List Text) (n : ℤ)
      → length args ≡ 1
      → v.get_int (codes "replicas") ≡ ok n
      → Defined v endpoint_flag
      → Ready v new_client args (run_scale v new_client args)
  scale-Ready [] n one i d = absurd (omega (arith, one))
  scale-Ready (a ∷ []) n one i d =
      on_client-Ready (a ∷ []) _ d (λ e h k. (h, k, (refl, or_zero_lem _ _ i)))
  scale-Ready (a ∷ b ∷ rest) n one i d = absurd (omega (arith, one))

  pub logs-Ready :
      (args : List Text) (follow : Bool) (n : ℤ)
      → length args ≡ 1
      → v.get_bool (codes "follow") ≡ ok follow
      → v.get_int (codes "tail") ≡ ok n
      → Defined v endpoint_flag
      → Ready v new_client args (run_logs v new_client args)
  logs-Ready [] follow n one b i d = absurd (omega (arith, one))
  logs-Ready (a ∷ []) follow n one b i d =
      on_client-Ready (a ∷ []) _ d (λ e h k. (h, k, (refl, or_zero_lem _ _ b, or_zero_lem _ _ i)))
  logs-Ready (a ∷ c ∷ rest) follow n one b i d = absurd (omega (arith, one))

  pub login-Ready :
      (args : List Text)
      → length args ≡ 1
      → Defined v endpoint_flag
      → Ready v new_client args (run_login v new_client args)
  login-Ready [] one d = absurd (omega (arith, one))
  login-Ready (a ∷ []) one d = on_client-Ready (a ∷ []) _ d (λ e h k. (h, k, refl))
  login-Ready (a ∷ c ∷ rest) one d = absurd (omega (arith, one))

  pub validate-Ready :
      (args : List Text)
      → length args ≡ 1
      → Ready v new_client args (with_first args run_validate_cmd)
  validate-Ready [] one = absurd (omega (arith, one))
  validate-Ready (a ∷ []) one = refl
  validate-Ready (a ∷ c ∷ rest) one = absurd (omega (arith, one))

  pub unnamed-Ready :
      (args : List Text) (c : Call)
      → Defined v endpoint_flag
      → Takes v args c
      → Ready v new_client args (unnamed c v new_client args)
  unnamed-Ready args c d t = on_client-Ready args _ d (λ e h k. (h, k, t))
