-- ===== src/VideoReceiver/Frames/Gate.antt =====
-- After a change of the active source no frame goes to the head unit before a key frame, as long
-- as the wait has not timed out.
use qdplay.Prelude.{
  ℕ, ◌+◌, ◌-◌, ◌≡◌, ◌≤◌, refl, ◌⊎◌, inl, inr, true, false, Option, none, some, List, [], ◌∷◌, ◌++◌,
  ltb, ◌==◌, All, arith, Bool-cases, ◌≢◌, sym, subst,
}
use qdplay.VideoReceiver.{
  State, VideoParams, Effect, write_h264, keyframe_wait_us, frame_header_size,
}
use qdplay.VideoReceiver.Keyframe.{is_keyframe, is_keyframe-nil}
use qdplay.VideoReceiver.Frames.{handle_frame, payload, is_forwarded, frame_params, timed_out}
use qdplay.Words.{be32_at}
use qdplay.VideoReceiver.Sources.History.{Call, step}
use qdplay.VideoReceiver.Sources.Resets.{step-Resets}

-- A frame of some source: its pid, the bytes, the declared length, and the time.
pub record Arrival : Type 0 where
  pub pid : ℕ
  pub frame : List ℕ
  pub full_len : ℕ
  pub now : ℕ

-- What the frames that arrive in turn send to the head unit. A frame that is refused sends nothing.
pub deliver : List Arrival → State → List Effect
deliver [] st = []
deliver (a ∷ later) st = elim (handle_frame a.pid a.frame a.full_len a.now st) [
  | none ↦ deliver later st
  | some (st', effects) ↦ effects ++ deliver later st'
]

-- The first thing sent, if any, is a frame with a key frame in it.
abbrev pub StartsWithKeyframe : List Effect → Type 0
StartsWithKeyframe es =
    (es ≡ [])
    ⊎ ((params : VideoParams) × (unit : List ℕ) × (rest : List Effect) × (es
          ≡ write_h264 params unit ∷ rest)
        × (is_keyframe unit ≡ true))

-- What one frame does while a key frame is awaited and the wait has not timed out.
abbrev Awaits : State → Option (State × List Effect) → Type 0
Awaits st r =
    (r ≡ none)
    ⊎ (r ≡ some (st, []))
    ⊎ ((st' : State) × (params : VideoParams) × (unit : List ℕ) × (r
          ≡ some (st', write_h264 params unit ∷ []))
        × (is_keyframe unit ≡ true))

payload_empty :
    (frame : List ℕ) (n : ℕ) → ltb 0 (n - frame_header_size) ≡ false → payload frame n ≡ []
payload_empty frame n h = rw (let e : n - frame_header_size ≡ 0 = ground arith in e)

handle_frame-Awaits :
    (pid : ℕ) (frame : List ℕ) (full_len now : ℕ) (st : State)
    → st.awaiting_keyframe ≡ true
    → now ≤ st.awaiting_keyframe_since + keyframe_wait_us
    → Awaits st (handle_frame pid frame full_len now st)
unfolding handle_frame
handle_frame-Awaits pid frame full_len now st wait early =
    let on_time : timed_out now st ≡ false = ground arith in
    elim (Bool-cases (full_len - frame_header_size == be32_at frame 28)) [
      | inr wrong ↦ inl (rw wrong)
      | inl right ↦ elim (Bool-cases (is_forwarded pid st)) [
        | inr off ↦ inr (inl (rw (right, off)))
        | inl on ↦ elim (Bool-cases (is_keyframe (payload frame full_len))) [
          | inr plain ↦ inr (inl (rw (right, on, wait, plain, on_time)))
          | inl key ↦ elim (Bool-cases (ltb 0 (full_len - frame_header_size))) [
            | inl more ↦ inr (
                inr (
                  record st { awaiting_keyframe = false },
                  frame_params frame,
                  payload frame full_len,
                  rw (right, on, wait, key, more),
                  key,
                ))
            | inr empty ↦ absurd (cc (payload_empty frame full_len empty, is_keyframe-nil))
          ]
        ]
      ]
    ]

deliver-Awaits :
    (arrivals : List Arrival) (st : State)
    → st.awaiting_keyframe ≡ true
    → All (λ a. a.now ≤ st.awaiting_keyframe_since + keyframe_wait_us) arrivals
    → StartsWithKeyframe (deliver arrivals st)
unfolding deliver
deliver-Awaits [] st wait early = inl refl
deliver-Awaits (a ∷ later) st wait early =
    elim (handle_frame-Awaits a.pid a.frame a.full_len a.now st wait early.0) [
      | inl e ↦ rw (e, deliver) (deliver-Awaits later st wait early.1)
      | inr (inl e) ↦ rw (e, deliver) (deliver-Awaits later st wait early.1)
      | inr (inr (st', params, unit, e, key)) ↦
          inr (params, unit, deliver later st', rw (e, deliver), key)
    ]

-- When a call of the video receiver's functions gives the screen to another process, and until the
-- wait for a key frame that begins with that call has timed out, the first thing that the frames of all
-- sources send to the head unit is a frame with a key frame in it. The calls are the activation, the
-- deactivation, a request for the screen, a yield, the switch to the previous source, a new
-- connection and the removal of a source.
pub deliver-StartsWithKeyframe :
    (c : Call) (now : ℕ) (st : State) (arrivals : List Arrival)
    → (step (now, c) st).active_pid ≢ st.active_pid
    → All (λ a. a.now ≤ now + keyframe_wait_us) arrivals
    → StartsWithKeyframe (deliver arrivals (step (now, c) st))
deliver-StartsWithKeyframe c now st arrivals changed early = elim (step-Resets c now st) [
  | inl same ↦ absurd (changed same)
  | inr (waits, since) ↦
      deliver-Awaits arrivals (step (now, c) st) waits
        (subst (λ t. All (λ a. a.now ≤ t + keyframe_wait_us) arrivals) (sym since) early)
]
