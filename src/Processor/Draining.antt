-- ===== src/Processor/Draining.antt =====
-- A function of a processor that says TRUE has taken bytes from the driver.
use qdplay.Prelude.{
  ℕ, ◌≡◌, ◌≤◌, ◌<◌, Bool, true, false, Option, none, some, List, [], ◌∷◌, if◌then◌else◌, subst,
  arith, Option-cases, inl, inr,
}
use qdplay.Posix.{Outcome, done, failed}
use qdplay.Accessory.{Session}
use qdplay.Accessory.Read.{Reading, read}
use qdplay.Processor.{
  Env, Io, Port, write_padded, Call, return, call, ◌>>=◌, ◌>>◌, and_then, read_some, bytes_read,
  read_tail, write_bytes, is_positive, reply,
}
use qdplay.Processor.Progress.{
  pending, pending_in, Takes, read-Takes, read_message_tail-Keeps, write-bounce,
  write_with_padding_512-bounce,
}

-- The pending bytes do not grow.
pub record Sober {ℓ} {A : Type ℓ} (io : Io A) : Type 0 where
  pub kept : (p : Port) → pending (io p).2 ≤ pending p

pub Sober-return {ℓ} : {A : Type ℓ} (a : A) → Sober (return a)
Sober-return a = record { kept = λ p. omega arith }

pub Sober-call : (c : Call) → Sober (call c)
Sober-call c = record { kept = λ p. omega arith }

pub Sober-bind {ℓ κ} :
    {A : Type ℓ} {B : Type κ} {io : Io A} {next : A → Io B}
    → Sober io
    → ((a : A) → Sober (next a))
    → Sober (io >>= next)
Sober-bind {io} {next} first rest = record {
  kept = λ p. omega (arith, first.kept p, (rest (io p).0).kept (io p).2);
}

pub Sober-then {ℓ} :
    {B : Type ℓ} {io : Io (Unit {0})} {next : Io B} → Sober io → Sober next → Sober (io >> next)
Sober-then first rest = Sober-bind first (λ _. rest)

pub Sober-if :
    {io other : Io Bool} (b : Bool) → Sober io → Sober other → Sober (if b then io else other)
Sober-if true kept kept' = kept
Sober-if false kept kept' = kept'

pub Sober-and_then : {io next : Io Bool} → Sober io → Sober next → Sober (and_then io next)
Sober-and_then first rest = Sober-bind first (λ ok. Sober-if ok rest (Sober-return false))

pub Sober-write_bytes : (now : ℕ) (bytes : List ℕ) → Sober (write_bytes now bytes)
Sober-write_bytes now bytes = record {
  kept = λ p. omega (arith, write-bounce bytes p.writings now p.session);
}

pub Sober-write_padded : (env : Env) (header body : List ℕ) → Sober (write_padded env header body)
Sober-write_padded env header body = record {
  kept = λ p.
      omega
        (arith, write_with_padding_512-bounce env.memory header body p.writings env.now p.session);
}

pub Sober-reply : (now : ℕ) (bytes : List ℕ) → Sober (reply now bytes)
Sober-reply now bytes = Sober-bind (Sober-write_bytes now bytes) (λ r. Sober-return (is_positive r))

pub Sober-read_tail :
    (buffer : List ℕ) (required capacity : ℕ) → Sober (read_tail buffer required capacity)
Sober-read_tail buffer required capacity = record {
  kept = λ p. read_message_tail-Keeps buffer required capacity p.readings p.session;
}

-- TRUE is said only after bytes are taken.
pub record Drains (io : Io Bool) : Type 0 where
  pub sober : Sober io
  pub takes : (p : Port) → (io p).0 ≡ true → pending (io p).2 < pending p

-- A read keeps the pending bytes, and takes one when it has some.
abbrev Took : ℕ → Outcome (List ℕ) × List Reading × Session → Type 0
Took before (r, rs, s) =
    (pending_in rs s ≤ before) × ((bs : List ℕ) → bytes_read r ≡ some bs → pending_in rs s < before)

Takes-Took :
    (before : ℕ) (r : Outcome (List ℕ) × List Reading × Session) → Takes before r → Took before r
Takes-Took before (done [], rs, s) taken = (omega (arith, taken), λ bs e. cc)
Takes-Took before (done (b ∷ bs), rs, s) taken =
    (omega (arith, taken), λ bs' e. omega (arith, taken))
Takes-Took before (failed e, rs, s) taken = (taken, λ bs e'. cc)

pub Sober-read_some : (len : ℕ) → Sober (read_some len)
Sober-read_some len = record {
  kept = λ p.
      (Takes-Took (pending p) (read len p.readings p.session)
        (read-Takes len p.readings p.session)).0;
}

-- A message is read, and nothing but FALSE is said when there is none.
pub Drains-read_some :
    (len : ℕ) {next : Option (List ℕ) → Io Bool}
    → ((r : Option (List ℕ)) → Sober (next r))
    → ((p : Port) → (next none p).0 ≡ false)
    → Drains (read_some len >>= next)
Drains-read_some len {next} rest without = record {
  sober = Sober-bind (Sober-read_some len) rest;
  takes = λ p ok. elim (Option-cases (bytes_read (read len p.readings p.session).0)) [
    | inl e ↦
        let said : (next none (read_some len p).2).0 ≡ true =
          subst (λ r. (next r (read_some len p).2).0 ≡ true) e ok in
        let unsaid : (next none (read_some len p).2).0 ≡ false = without (read_some len p).2 in cc
    | inr (bs, e) ↦
        omega (arith, (took p).1 bs e, (rest (read_some len p).0).kept (read_some len p).2)
  ];
}
  where
    took : (p : Port) → Took (pending p) (read len p.readings p.session)
    took p =
        Takes-Took (pending p) (read len p.readings p.session) (read-Takes len p.readings p.session)

pub Drains-if : {io : Io Bool} (b : Bool) → Drains io → Drains (if b then io else return false)
Drains-if true d = d
Drains-if false d = record { sober = Sober-return false; takes = λ p ok. cc }
