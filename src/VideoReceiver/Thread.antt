-- ===== src/VideoReceiver/Thread.antt =====
-- video_receiver.c: one round of `video_receiver_processing_thread` after `poll` has returned.
pub mod Keeps
pub mod Inv
use qdplay.Prelude.{
  ℕ, zero, suc, Bool, true, false, Option, none, some, List, [], ◌∷◌, ◌++◌, get_elem?, set, length,
}
use qdplay.Posix.{Outcome}
use qdplay.VideoReceiver.{Source, State, Effect}
use qdplay.VideoReceiver.Sources.{accept, remove_source}
use qdplay.VideoReceiver.Stream.{Allocator, Recv, Read, read_loop}

-- `video_receiver_read_source(&sources[i])`; the index is below the count.
pub read_source : Allocator → List Recv → ℕ → State → Bool × State × List Effect
read_source alloc rs i st = elim (get_elem? st.sources i) [
  | none ↦ (true, st, [])
  | some src ↦
      let r = read_loop alloc rs src st [] in
      let st' = r.state in (r.keep, record st' { sources = set st'.sources i r.source }, r.effects)
]

-- The source in slot `i`, with what `recv` returns for it, or `none` if `revents` is 0.
pub serve : Allocator → ℕ → Option (List Recv) → ℕ → State → State × List Effect
serve alloc now none i st = (st, [])
serve alloc now (some rs) i st =
    let (keep, st', effects) = read_source alloc rs i st in
    elim keep [
      | true ↦ (st', effects)
      | false ↦ let (st'', more) = remove_source i now st' in (st'', effects ++ more)
    ]

-- `for (size_t i = count; i > 0; i--)`
pub serve_all : Allocator → ℕ → (ℕ → Option (List Recv)) → ℕ → State → State × List Effect
serve_all alloc now ready zero st = (st, [])
serve_all alloc now ready (suc i) st =
    let (st', effects) = serve alloc now (ready i) i st in
    let (st'', more) = serve_all alloc now ready i st' in (st'', effects ++ more)

-- What `poll` reports: the sources with something to read, and whether a connection waits, with
-- what `accept4` and `getsockopt` then return.
pub record Polled : Type 0 where
  pub ready : ℕ → Option (List Recv)
  pub connection : Option (Outcome ℕ × Outcome ℕ)

pub poll_round : Allocator → ℕ → Polled → State → State × List Effect
poll_round alloc now polled st =
    let (st', effects) = serve_all alloc now polled.ready (length st.sources) st in
    elim polled.connection [
      | none ↦ (st', effects)
      | some (fd, credentials) ↦
          let (st'', more) = accept fd credentials now st' in (st'', effects ++ more)
    ]
