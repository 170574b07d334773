-- ===== src/Actions/Registry.antt =====
-- The registry against the permission manifest and its own rules:
-- crates/ppb-server/src/actions/registry.rs, and manifest.rs of permissions.
use phira_plus_backend.Prelude.{
  ◌≡◌, refl, String, Bool, true, false, not, ◌&&◌, ◌||◌, some, List, [], ◌∷◌, ◌==◌, string_eq,
  eq_iff, contains, find, find-passes, any, every, strip_prefix, is_some, arith, Bool-cases, inl,
  inr,
}
use phira_plus_backend.Permissions.{permission_manifest}
use phira_plus_backend.Actions.{
  high, Executor, open_uds, cli_raw, ActionDescriptor, seed_actions, find_action, job_only_ids,
}

abbrev pub is_open_uds : Executor → Bool
is_open_uds open_uds = true
is_open_uds _ = false

abbrev pub is_cli_raw : Executor → Bool
is_cli_raw cli_raw = true
is_cli_raw _ = false

-- An action for hosts is audited and queued by room.
abbrev pub for_hosts : ActionDescriptor → Bool
for_hosts a = not a.host_allowed || (a.audit && is_some (strip_prefix "room:" a.queue_key))

-- A raw console command is the one action of that kind and asks for reauthentication; no typed
-- command is a console command.
abbrev pub for_console : ActionDescriptor → Bool
for_console a =
    (not (is_cli_raw a.executor) || (a.id == "pmp.cli.execute" && a.reauth))
    && not (is_open_uds a.executor && a.id == "cli.execute")

-- The permission exists too.
abbrev pub is_disciplined : ActionDescriptor → Bool
is_disciplined a =
    any (λ p. p.id == a.permission) permission_manifest && (for_hosts a && for_console a)

every-find :
    (p q : ActionDescriptor → Bool) (actions : List ActionDescriptor) (a : ActionDescriptor)
    → every p actions ≡ true
    → find q actions ≡ some a
    → p a ≡ true
every-find p q [] a h f = absurd (ground (arith, f))
every-find p q (x ∷ actions) a h f = elim (Bool-cases (q x)) [
  | inl e ↦ ground (arith, h, e, f)
  | inr e ↦ every-find p q actions a (ground (arith, h)) (ground (arith, e, f))
]

all_disciplined : every is_disciplined seed_actions ≡ true
unfolding strip_prefix
all_disciplined = refl

-- Every action that a request can name has its own id and a permission of the manifest; it is open
-- to hosts only if it is audited and queued by room; only pmp.cli.execute, which asks for
-- reauthentication, runs raw console text, and no typed command is named cli.execute.
pub find_action-is_disciplined :
    (id : String) (a : ActionDescriptor)
    → find_action id ≡ some a
    → (a.id ≡ id) × (is_disciplined a ≡ true)
unfolding find_action
find_action-is_disciplined id a f = (
  (eq_iff a.id id).0 (find-passes (λ b. b.id == id) seed_actions f),
  every-find is_disciplined (λ b. b.id == id) seed_actions a all_disciplined f,
)

both : (a b : Bool) → (a && b) ≡ true → (a ≡ true) × (b ≡ true)
both true b h = (refl, h)
both false b h = absurd (ground (arith, h))

-- How the executors of the registry meet the console.
pub find_action-executor :
    (id : String) (a : ActionDescriptor)
    → find_action id ≡ some a
    → ((not (is_cli_raw a.executor) || (a.id == "pmp.cli.execute" && a.reauth)) ≡ true)
      × ((is_open_uds a.executor && a.id == "cli.execute") ≡ false)
find_action-executor id a f =
    let (_, disciplined) = find_action-is_disciplined id a f in
    let (_, rest) =
      both (any (λ p. p.id == a.permission) permission_manifest) (for_hosts a && for_console a)
        disciplined in
    let (_, console) = both (for_hosts a) (for_console a) rest in
    let (raw, typed) =
      both (not (is_cli_raw a.executor) || (a.id == "pmp.cli.execute" && a.reauth))
        (not (is_open_uds a.executor && a.id == "cli.execute")) console in
    (raw, ground (arith, typed))

abbrev ids : List ActionDescriptor → List String
ids [] = []
ids (a ∷ actions) = a.id ∷ ids actions

abbrev are_distinct : List String → Bool
are_distinct [] = true
are_distinct (id ∷ rest) = not (contains rest id) && are_distinct rest

-- The ids of the registry are distinct, and those that only jobs run are among them.
ids_distinct :
    (are_distinct (ids seed_actions) && every (contains (ids seed_actions)) job_only_ids) ≡ true
ids_distinct = refl

-- The descriptor of the raw console.
pub find_action-raw :
    (a : ActionDescriptor)
    → find_action "pmp.cli.execute" ≡ some a
    → (a.permission ≡ "pmp:cli") × (a.reauth ≡ true) × (a.risk ≡ high)
unfolding find_action
find_action-raw a f = (ground (arith, f), ground (arith, f), ground (arith, f))
