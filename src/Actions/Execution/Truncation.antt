-- ===== src/Actions/Execution/Truncation.antt =====
-- The cut of error texts: crates/ppb-server/src/actions/executor.rs.
use phira_plus_backend.Prelude.{
  ℕ, zero, suc, ◌-◌, ◌≤◌, ◌≡◌, refl, sym, ap, ◌∙◌, String, Bool, true, false, Option, none, some,
  List, [], ◌∷◌, subst, every, length, length-append, leb, leb→le, ltb, code, codes, utf8,
  char_bytes, byte_prefix, arith, Bool-cases, Option-cases, inl, inr, is_some,
}
use Prim.Native.Char.{Char}
use Prim.Native.String.{◌++◌ as string_append}
use mathlib.Core.Option
use phira_plus_backend.Actions.Execution.{
  Env, Outcome, succeeded, failed, CommandTask, Ran, ServerDb, Sent, truncate, recorded, conclude,
  run, execute,
}

abbrev pub byte_length : String → ℕ
byte_length s = length (utf8 (codes s))

abbrev pub is_ascii : ℕ → Bool
is_ascii c = ltb c 128

is_some-map : {A B : Type 0} (f : A → B) (o : Option A) → is_some (Option.map f o) ≡ is_some o
is_some-map f none = refl
is_some-map f (some a) = refl

byte_prefix-step :
    (n m : ℕ) (c : Char) (s : String)
    → leb (length (char_bytes (code c))) (suc n) ≡ true
    → suc n - length (char_bytes (code c)) ≡ m
    → byte_prefix (suc n) (String.◌∷◌ c s) ≡ Option.map (String.◌∷◌ c) (byte_prefix m s)
unfolding byte_prefix
byte_prefix-step n m c s l e = rw (byte_prefix, l, e) refl

-- A cut of a text of ASCII characters never fails.
byte_prefix-ascii :
    (n : ℕ) (s : String)
    → every is_ascii (codes s) ≡ true
    → n ≤ byte_length s
    → is_some (byte_prefix n s) ≡ true
unfolding byte_prefix utf8
byte_prefix-ascii zero s a l = refl
byte_prefix-ascii (suc n) String.[] a l = absurd (omega (arith, l))
byte_prefix-ascii (suc n) (String.◌∷◌ c s) a l =
    let one : char_bytes (code c) ≡ code c ∷ [] = ground (arith, a) in
    let shorter : n ≤ byte_length s =
      omega (arith, l, length-append (char_bytes (code c)) (utf8 (codes s)), ap length one) in
    ap is_some
      (byte_prefix-step n n c s (ground (arith, ap length one)) (omega (arith, ap length one)))
    ∙ is_some-map (String.◌∷◌ c) (byte_prefix n s)
    ∙ byte_prefix-ascii n s (ground (arith, a)) shorter

byte_prefix-length : (n : ℕ) (s p : String) → byte_prefix n s ≡ some p → byte_length p ≡ n
unfolding byte_prefix utf8
byte_prefix-length zero s p h =
    let same : "" ≡ p = ground (arith, h) in subst (λ (q : String). byte_length q ≡ 0) same refl
byte_prefix-length (suc n) String.[] p h = absurd (ground (arith, h))
byte_prefix-length (suc n) (String.◌∷◌ c s) p h =
    elim (Bool-cases (leb (length (char_bytes (code c))) (suc n))) [
      | inr e ↦ absurd (ground (arith, e, h))
      | inl e ↦ elim (Option-cases (byte_prefix (suc n - length (char_bytes (code c))) s)) [
        | inl f ↦ absurd (ground (arith, e, f, h))
        | inr (q, f) ↦
            let same : String.◌∷◌ c q ≡ p = ground (
              arith,
              sym (byte_prefix-step n (suc n - length (char_bytes (code c))) c s e refl) ∙ h,
              f,
            ) in
            let rest = byte_prefix-length (suc n - length (char_bytes (code c))) s q f in
            subst (λ (r : String). byte_length r ≡ suc n) same
              (length-append (char_bytes (code c)) (utf8 (codes q))
                ∙ omega (arith, leb→le (length (char_bytes (code c))) (suc n) e, rest))
      ]
    ]

-- A text of ASCII characters is kept if it is at most so long, and else cut to exactly so many bytes.
truncate-ascii :
    (s : String) (max : ℕ) → every is_ascii (codes s) ≡ true → is_some (truncate s max) ≡ true
unfolding truncate
truncate-ascii s max a = elim (Bool-cases (leb (byte_length s) max)) [
  | inl e ↦ ground (arith, e)
  | inr e ↦
      ap is_some (rw (truncate, e) refl)
      ∙ is_some-map (λ p. string_append p "…") (byte_prefix max s)
      ∙ byte_prefix-ascii max s a (ground (arith, e))
]

-- What the cut of a longer text keeps has exactly so many bytes.
truncate-cut :
    (s t : String) (max : ℕ)
    → leb (byte_length s) max ≡ false
    → truncate s max ≡ some t
    → (p : String) × (t ≡ string_append p "…") × (byte_length p ≡ max)
unfolding truncate
truncate-cut s t max e h = elim (Option-cases (byte_prefix max s)) [
  | inl f ↦ absurd (ground (arith, e, f, h))
  | inr (p, f) ↦ (p, ground (arith, e, f, h), byte_prefix-length max s p f)
]

abbrev pub failure_text : Outcome → String
failure_text (succeeded v) = ""
failure_text (failed e) = e

conclude-some :
    (env : Env) (task : CommandTask) (o : Outcome) (sent : List Sent) (db : Option ServerDb)
    → every is_ascii (codes (failure_text o)) ≡ true
    → (ran : Ran) × (conclude env task (record { outcome = o; sent = sent; db = db }) ≡ some ran)
      × (ran.outcome ≡ o)
      × (ran.sent ≡ sent)
unfolding conclude
conclude-some env task (succeeded v) sent db a = (
  record { outcome = succeeded v; sent = sent; db = recorded task "succeeded" (env.print v) "" db },
  refl,
  refl,
  refl,
)
conclude-some env task (failed text) sent db a = elim (Option-cases (truncate text 120)) [
  | inl f ↦ absurd (ground (arith, f, truncate-ascii text 120 a))
  | inr (short, f) ↦ (
    record { outcome = failed text; sent = sent; db = recorded task "failed" "" short db },
    rw (conclude, f) refl,
    refl,
    refl,
  )
]

-- Unless the text of its failure has a character outside ASCII, an execution comes to its end, with
-- the outcome of its run and what that run has sent.
pub execute-concludes :
    (env : Env) (now : ℕ) (task : CommandTask) (db : Option ServerDb)
    → every is_ascii (codes (failure_text (run env now task db).outcome)) ≡ true
    → (ran : Ran) × (execute env now task db ≡ some ran)
      × (ran.outcome ≡ (run env now task db).outcome)
      × (ran.sent ≡ (run env now task db).sent)
unfolding execute conclude
execute-concludes env now task db a =
    let r = run env now task db in conclude-some env task r.outcome r.sent r.db a
