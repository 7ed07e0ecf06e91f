-- ===== src/VideoReceiver/Sources.antt =====
-- video_receiver.c: the list of sources and the choice of the active one. An operation under the
-- mutex is one step; `now` is what `g_get_monotonic_time` returns in it.
pub mod Pick
pub mod Inv
pub mod History
pub mod Raise
pub mod Resets
pub mod Switch
use qdplay.Prelude.{
  ℕ, ◌+◌, ◌-◌, Bool, true, false, Option, none, some, List, [], ◌∷◌, ◌++◌, length, get_elem?, set,
  take, ltb, ◌==◌, if◌then◌else◌, not,
}
use qdplay.Posix.{Errno, eintr, eagain, Outcome, done, failed}
use qdplay.Words.{add_u64}
use qdplay.VideoReceiver.{
  Source, State, max_sources, Effect, close_fd, sleep_us, broadcast, notify_sources,
}

pub activate : State → State
activate st = record st { sink_active = true }

pub deactivate : State → State
deactivate st = record st { sink_active = false }

pub sources_count : State → ℕ
sources_count st = length st.sources

pub is_connected : State → Bool
is_connected st = ltb 0 (length st.sources)

-- `best == NULL || source->priority > best->priority`
abbrev pub better : Option Source → Source → Option Source
better none s = some s
better (some b) s = if ltb b.priority s.priority then some s else some b

unfoldable pub pick_best : Option Source → List Source → Option Source
pick_best best [] = best
pick_best best (s ∷ ss) = pick_best (better best s) ss

-- `best ? best->pid : 0`
abbrev pub pid_of : Option Source → ℕ
pid_of none = 0
pid_of (some s) = s.pid

abbrev pub pick_active : State → ℕ
pick_active st = pid_of (pick_best none st.sources)

-- `video_receiver_update_active_locked`. `*old_pid` is the `active_pid` of the state before.
unfoldable pub update_active : ℕ → State → State
update_active now st =
    let new_pid = pick_active st in
    if st.active_pid == new_pid
    then st
    else record st { active_pid = new_pid; awaiting_keyframe = true; awaiting_keyframe_since = now }

-- `video_receiver_notify_active_change`, whose log line is left out.
abbrev pub notify_active_change : ℕ → State → Effect
notify_active_change old_pid st = notify_sources old_pid st.active_pid (length st.sources)

-- The loop of `video_receiver_request_active`, with `next_priority` at its start and end.
pub raise : ℕ → ℕ → List Source → List Source × ℕ
raise pid next [] = ([], next)
raise pid next (s ∷ ss) =
    let hit = s.pid == pid in
    let (ss', next') = raise pid (if hit then add_u64 next 1 else next) ss in
    ((if hit then record s { priority = next } else s) ∷ ss', next')

pub request_active : ℕ → ℕ → State → State × Effect
request_active pid now st =
    let (sources, next) = raise pid st.next_priority st.sources in
    let st' = update_active now (record st { sources = sources; next_priority = next }) in
    (st', notify_active_change st.active_pid st')

-- The pointer `next` of `video_receiver_yield`: an index and the source that stands there.
abbrev pub Pointer : Type 0
Pointer = Option (ℕ × Source)

-- `next == NULL || source->priority > next->priority`
abbrev pub better_next : Pointer → ℕ → Source → Pointer
better_next none i s = some (i, s)
better_next (some (j, b)) i s = if ltb b.priority s.priority then some (i, s) else some (j, b)

-- The loop of `video_receiver_yield`, at index `i`.
pub lower : ℕ → ℕ → Pointer → List Source → List Source × Pointer
lower pid i next [] = ([], next)
lower pid i next (s ∷ ss) =
    let mine = s.pid == pid in
    let (ss', next') = lower pid (i + 1) (if mine then next else better_next next i s) ss in
    ((if mine then record s { priority = 0 } else s) ∷ ss', next')

-- `if (next != NULL) next->priority = next_priority++`
abbrev pub promote : Pointer → State → State
promote none st = st
promote (some (j, s)) st = record st {
  sources = set st.sources j (record s { priority = st.next_priority });
  next_priority = add_u64 st.next_priority 1;
}

pub yield_screen : ℕ → ℕ → State → State × Effect
yield_screen pid now st =
    let (sources, next) = lower pid 0 none st.sources in
    let st' = update_active now (promote next (record st { sources = sources })) in
    (st', notify_active_change st.active_pid st')

pub switch_to_previous : ℕ → State → State × List Effect
switch_to_previous now st =
    let (st', e) = yield_screen st.active_pid now st in
    if st.active_pid == 0 then (st, []) else (st', e ∷ [])

-- `memset` and the assignments to the new slot.
abbrev pub new_source : ℕ → ℕ → ℕ → Source
new_source fd pid priority = record {
  fd = fd;
  pid = pid;
  priority = priority;
  buffer = [];
  buffer_size = 0;
}

-- The credentials that `getsockopt` gives, or pid 0.
abbrev pub peer_pid : Outcome ℕ → ℕ
peer_pid (done pid) = pid
peer_pid (failed e) = 0

-- The part of `video_receiver_accept` after a successful `accept4`.
unfoldable pub accept_fd : ℕ → ℕ → ℕ → State → State × List Effect
accept_fd fd pid now st =
    if ltb (length st.sources) max_sources
    then (st', broadcast ∷ notify_active_change st.active_pid st' ∷ [])
    else (st, close_fd fd ∷ [])
  where
    st' : State
    st' = update_active now (record st {
      sources = st.sources ++ (new_source fd pid st.next_priority ∷ []);
      next_priority = add_u64 st.next_priority 1;
    })

abbrev pub accept_error : Errno → List Effect
accept_error eintr = []
accept_error eagain = []
accept_error e = sleep_us 100000 ∷ []

-- `video_receiver_accept`, on what `accept4` and `getsockopt` return.
unfoldable pub accept : Outcome ℕ → Outcome ℕ → ℕ → State → State × List Effect
accept (failed e) credentials now st = (st, accept_error e)
accept (done fd) credentials now st = accept_fd fd (peer_pid credentials) now st

-- `sources[index] = sources[--sources_count]`
pub swap_remove : List Source → ℕ → List Source
swap_remove xs i = elim (get_elem? xs (length xs - 1)) [
  | none ↦ xs
  | some l ↦ take (length xs - 1) (set xs i l)
]

-- `video_receiver_remove_source`
unfoldable pub remove_source : ℕ → ℕ → State → State × List Effect
remove_source index now st = elim (get_elem? st.sources index) [
  | none ↦ (st, [])
  | some s ↦
      let st' = update_active now (record st { sources = swap_remove st.sources index }) in
      (st', close_fd s.fd ∷ broadcast ∷ notify_active_change st.active_pid st' ∷ [])
]
