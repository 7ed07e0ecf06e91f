-- ===== src/Processor/Calls.antt =====
-- What holds of all calls of a function of a processor.
use qdplay.Prelude.{Bool, true, false, List, [], ◌∷◌, ◌++◌, All, if◌then◌else◌}
use qdplay.Processor.{Call, Io, Port, return, call, ◌>>=◌, ◌>>◌, and_then}

All-append {ℓ κ} :
    {A : Type ℓ} (P : A → Type κ) (xs ys : List A) → All P xs → All P ys → All P (xs ++ ys)
All-append P [] ys all rest = rest
All-append P (x ∷ xs) ys all rest = (all.0, All-append P xs ys all.1 rest)

-- Every call has the property, whatever the port answers.
pub record Makes {ℓ} {A : Type ℓ} (P : Call → Type 0) (io : Io A) : Type 0 where
  pub calls : (p : Port) → All P (io p).1

module _ {P : Call → Type 0} where
  pub Makes-return {ℓ} : {A : Type ℓ} (a : A) → Makes P (return a)
  Makes-return a = record { calls = λ p. tt }

  pub Makes-call : (c : Call) → P c → Makes P (call c)
  Makes-call c kept = record { calls = λ p. (kept, tt) }

  pub Makes-bind {ℓ κ} :
      {A : Type ℓ} {B : Type κ} {io : Io A} {next : A → Io B}
      → Makes P io
      → ((a : A) → Makes P (next a))
      → Makes P (io >>= next)
  Makes-bind {io} {next} first rest = record {
    calls = λ p.
        All-append P (io p).1 (next (io p).0 (io p).2).1 (first.calls p)
          ((rest (io p).0).calls (io p).2);
  }

  pub Makes-then {ℓ} :
      {B : Type ℓ} {io : Io (Unit {0})} {next : Io B}
      → Makes P io
      → Makes P next
      → Makes P (io >> next)
  Makes-then first rest = Makes-bind first (λ _. rest)

  pub Makes-if :
      {io other : Io Bool} (b : Bool)
      → Makes P io
      → Makes P other
      → Makes P (if b then io else other)
  Makes-if true kept kept' = kept
  Makes-if false kept kept' = kept'

  pub Makes-and_then : {io next : Io Bool} → Makes P io → Makes P next → Makes P (and_then io next)
  Makes-and_then first rest = Makes-bind first (λ ok. Makes-if ok rest (Makes-return false))
