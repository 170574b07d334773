-- ===== src/Jobs/Exclusion.antt =====
-- At most one active job for each resource: crates/ppb-server/src/jobs/mod.rs and runner.rs, with
-- migrations/0007.
use phira_plus_backend.Prelude.{
  ℕ, ◌≤◌, ◌≡◌, refl, sym, ap, subst, String, true, false, not, ◌&&◌, none, some, Bool, List, arith,
  ◌∙◌, ◌==◌, nat_eq, string_eq, eq_iff, any, find, update_where, count_where, count_where-of_none,
  count_where-le, count_where-update_where, count_where-found, count_where-update_same, Bool-cases,
  Option-cases, inl, inr,
}
use phira_plus_backend.ApiError.{ok}
use phira_plus_backend.Jobs.{
  Job, JobState, Runner, holds, has_id, insert_job, clashes, update_job, create, with_state,
  update_state, advance, descriptor_of, or_empty,
}

-- The key of the resource that the registry names for a type of job.
abbrev pub resource_of : String → String
resource_of job_type = elim (descriptor_of job_type) [
  | none ↦ ""
  | some d ↦ or_empty d.resource_key
]

abbrev pub is_mistyped : Job → Bool
is_mistyped j = not (j.resource_key == resource_of j.type_)

-- No two rows share an id, no two active ones a key that is not empty, and the key of each is that
-- of its type.
pub record IsExclusive (jobs : List Job) : Type 0 where
  pub distinct : (id : ℕ) → count_where (has_id id) jobs ≤ 1
  pub exclusive : (key : String) → (key == "") ≡ false → count_where (holds key) jobs ≤ 1
  pub typed : count_where is_mistyped jobs ≡ 0

-- What an `UPDATE` that changes neither id nor type nor key may do to a row.
abbrev pub Keeps : (Job → Job) → Type 0
Keeps f =
    (j : Job) → ((f j).id ≡ j.id) × ((f j).resource_key ≡ j.resource_key) × ((f j).type_ ≡ j.type_)

holds-other :
    (id : ℕ) (key : String) (new : Job) (jobs : List Job)
    → (key == "") ≡ false
    → clashes id new jobs ≡ false
    → holds key new ≡ true
    → count_where (λ j. not (has_id id j) && holds key j) jobs ≡ 0
unfolding clashes
holds-other id key new jobs k c h =
    let same = (eq_iff new.resource_key key).0 (ground (arith, h)) in
    let set = subst (λ s. (s == "") ≡ false) (sym same) k in
    let free : any (λ j. not (has_id id j) && holds new.resource_key j) jobs ≡ false =
      ground (arith, h, set, c) in
    count_where-of_none (λ j. not (has_id id j) && holds key j) jobs
      (subst (λ s. any (λ j. not (has_id id j) && holds s j) jobs ≡ false) same free)

update_job-exclusive :
    (id : ℕ) (f : Job → Job) (jobs : List Job) (r : Job) (key : String)
    → Keeps f
    → find (has_id id) jobs ≡ some r
    → clashes id (f r) jobs ≡ false
    → (key == "") ≡ false
    → IsExclusive jobs
    → count_where (holds key) (update_where (has_id id) f jobs) ≤ 1
update_job-exclusive id f jobs r key keeps found c k v = elim (Bool-cases (holds key (f r))) [
  | inl h ↦ ground (
    arith,
    h,
    holds-other id key (f r) jobs k c h,
    count_where-update_where (holds key) (has_id id) f jobs,
    count_where-found (has_id id) (λ j. holds key (f j)) jobs r found (v.distinct id),
  )
  | inr h ↦ ground (
    arith,
    h,
    v.exclusive key k,
    count_where-le (λ j. not (has_id id j)) (holds key) jobs,
    count_where-update_where (holds key) (has_id id) f jobs,
    count_where-found (has_id id) (λ j. holds key (f j)) jobs r found (v.distinct id),
  )
]

pub update_job-IsExclusive :
    (id : ℕ) (f : Job → Job) (jobs js : List Job)
    → Keeps f
    → update_job id f jobs ≡ some js
    → IsExclusive jobs
    → IsExclusive js
unfolding update_job
update_job-IsExclusive id f jobs js keeps h v = elim (Option-cases (find (has_id id) jobs)) [
  | inl e ↦ subst IsExclusive (ground (arith, e, h)) v
  | inr (r, e) ↦ elim (Bool-cases (clashes id (f r) jobs)) [
    | inl c ↦ absurd (ground (arith, e, c, h))
    | inr c ↦
        subst IsExclusive {x = update_where (has_id id) f jobs} (ground (arith, e, c, h)) (record {
          distinct = λ k. omega (
            arith,
            v.distinct k,
            count_where-update_same (has_id k) (has_id id) f jobs
                (λ j. ap (λ n. n == k) (keeps j).0),
          );
          exclusive = λ key k. update_job-exclusive id f jobs r key keeps e c k v;
          typed =
              count_where-update_same is_mistyped (has_id id) f jobs
                (λ j. rw ((keeps j).1, (keeps j).2) refl)
              ∙ v.typed;
        })
  ]
]

insert_job-IsExclusive :
    (fresh : ℕ) (job_type key : String) (jobs js : List Job) (j : Job)
    → any (has_id fresh) jobs ≡ false
    → key ≡ resource_of job_type
    → insert_job fresh job_type key jobs ≡ some (j, js)
    → IsExclusive jobs
    → IsExclusive js
unfolding insert_job
insert_job-IsExclusive fresh job_type key jobs js j new named h v = record {
  distinct = λ id. ground (arith, h, v.distinct id, count_where-of_none (has_id fresh) jobs new);
  exclusive = λ k set.
      ground (arith, h, v.exclusive k set, eq_iff key k, count_where-of_none (holds key) jobs);
  typed = ground (arith, h, v.typed, (eq_iff key (resource_of job_type)).1 named);
}

update_state-IsExclusive :
    (now id : ℕ) (st : JobState) (stage e : String) (r : Runner)
    → IsExclusive r.jobs
    → IsExclusive (update_state now id st stage e r).jobs
unfolding update_state
update_state-IsExclusive now id st stage e r v =
    let f = with_state now st stage e in
    elim (Option-cases (update_job id f r.jobs)) [
      | inl h ↦ rw (h, update_state) v
      | inr (js, h) ↦
          rw (h, update_state)
            (update_job-IsExclusive id f r.jobs js (λ j. unfold with_state in (refl, refl, refl)) h
              v)
    ]

pub advance-IsExclusive :
    (now id : ℕ) (st : JobState) (stage e : String) (r : Runner)
    → IsExclusive r.jobs
    → IsExclusive (advance now id st stage e r).jobs
unfolding advance
advance-IsExclusive = update_state-IsExclusive

pub create-IsExclusive :
    (fresh : ℕ) (job_type key : String) (jobs js : List Job) (j : Job)
    → any (has_id fresh) jobs ≡ false
    → key ≡ resource_of job_type
    → create fresh job_type key jobs ≡ ok (j, js)
    → IsExclusive jobs
    → IsExclusive js
unfolding create
create-IsExclusive fresh job_type key jobs js j new named h =
    insert_job-IsExclusive fresh job_type key jobs js j new named (ground (arith, h))
