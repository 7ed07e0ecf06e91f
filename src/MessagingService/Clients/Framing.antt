-- ===== src/MessagingService/Clients/Framing.antt =====
-- The parcels that a client sends are taken out of its buffer one by one.
use qdplay.Prelude.{
  ℕ, suc, ◌+◌, ◌-◌, ◌^◌, ◌≡◌, ◌≤◌, ◌<◌, ◌⊎◌, inl, inr, refl, ap, ◌∙◌, true, false, List, [], ◌∷◌,
  ◌++◌, length, get_or, take, drop, ltb, leb, ◌==◌, if◌then◌else◌, All, arith, Bool-cases,
  length-append, drop-append_length, take_all, drop-add,
}
use qdplay.Words.{put_be32, be32_at, be32_bytes}
use qdplay.VideoReceiver.{service_mark}
use qdplay.MessagingService.{rx_buffer_size, Client}
use qdplay.MessagingService.Clients.{
  kept, is_bad_parcel, next_command, parse_loop, received, read_client,
}

-- What a client sends.
pub record Parcel : Type 0 where
  pub event_id : ℕ
  pub payload : List ℕ

-- It fits the service's buffer.
pub record IsParcel (p : Parcel) : Type 0 where
  pub event_id : p.event_id < 2 ^ 32
  pub fits : 16 + length p.payload ≤ rx_buffer_size

-- Its bytes, in front of what follows.
abbrev pub put_client_parcel : Parcel → List ℕ → List ℕ
put_client_parcel p rest = put_be32 service_mark (
    put_be32 p.event_id
      (put_be32 (16 + length p.payload) (put_be32 (length p.payload) (p.payload ++ rest))))

unfoldable pub put_client_parcels : List Parcel → List ℕ → List ℕ
put_client_parcels [] rest = rest
put_client_parcels (p ∷ ps) rest = put_client_parcel p (put_client_parcels ps rest)

-- The command of a parcel: the first byte of a source control's payload.
abbrev pub command_of : Parcel → ℕ → ℕ
command_of p command = if p.event_id == 5 then get_or p.payload 0 command else command

-- The command of the last source control among the parcels.
unfoldable pub last_command : List Parcel → ℕ → ℕ
last_command [] command = command
last_command (p ∷ ps) command = last_command ps (command_of p command)

-- The start of a parcel that is not complete.
abbrev pub IsStart : List ℕ → Type 0
IsStart tail = (length tail < 16) ⊎ ((is_bad_parcel tail ≡ false) × (length tail < be32_at tail 8))

first_byte :
    (payload rest : List ℕ) (command : ℕ)
    → (if leb 17 (16 + length payload) then get_or (payload ++ rest) 0 0 else command)
      ≡ get_or payload 0 command
first_byte [] rest command = refl
first_byte (b ∷ bs) rest command =
    let e : leb 17 (16 + suc (length bs)) ≡ true = ground arith in rw e refl

next_command-parcel :
    (p : Parcel) (rest : List ℕ) (command : ℕ)
    → IsParcel p
    → next_command (put_client_parcel p rest) command ≡ command_of p command
next_command-parcel p rest command v =
    let id = be32_bytes p.event_id v.event_id in
    let size = be32_bytes (16 + length p.payload) (omega (arith, v.fits)) in
    elim (Bool-cases (p.event_id == 5)) [
      | inl e ↦ rw (id, size, e) (first_byte p.payload rest command)
      | inr e ↦ rw (id, size, e) refl
    ]

parse_loop_step :
    (fuel : ℕ) (rx : List ℕ) (command : ℕ)
    → ltb (length rx) 16 ≡ false
    → is_bad_parcel rx ≡ false
    → ltb (length rx) (be32_at rx 8) ≡ false
    → parse_loop (suc fuel) rx command
      ≡ parse_loop fuel (drop (be32_at rx 8) rx) (next_command rx command)
unfolding parse_loop
parse_loop_step fuel rx command long good whole = rw (long, good, whole, parse_loop) refl

good_parcel :
    (p : Parcel) (rest : List ℕ) → IsParcel p → is_bad_parcel (put_client_parcel p rest) ≡ false
good_parcel p rest v =
    let fits = v.fits in
    rw (be32_bytes (16 + length p.payload) (omega (arith, fits))) (ground arith)

drop-parcel :
    (p : Parcel) (rest : List ℕ) → drop (16 + length p.payload) (put_client_parcel p rest) ≡ rest
drop-parcel p rest =
    drop-add 16 (length p.payload) (put_client_parcel p rest) ∙ drop-append_length p.payload rest

parse_loop-put_client_parcels :
    (ps : List Parcel) (fuel : ℕ) (rest : List ℕ) (command : ℕ)
    → All IsParcel ps
    → parse_loop (length ps + fuel) (put_client_parcels ps rest) command
      ≡ parse_loop fuel rest (last_command ps command)
unfolding parse_loop put_client_parcels last_command
parse_loop-put_client_parcels [] fuel rest command all =
    ap (λ n. parse_loop n rest command) (omega arith)
parse_loop-put_client_parcels (p ∷ ps) fuel rest command all =
    let fits = all.0.fits in
    let later = put_client_parcels ps rest in
    let rx = put_client_parcel p later in
    let size : be32_at rx 8 ≡ 16 + length p.payload =
      be32_bytes (16 + length p.payload) (omega (arith, fits)) in
    let len : length rx ≡ 16 + length p.payload + length later =
      omega (arith, length-append p.payload later) in
    let steps : suc (length ps) + fuel ≡ suc (length ps + fuel) = omega arith in
    ap (λ n. parse_loop n rx command) steps
    ∙ parse_loop_step (length ps + fuel) rx command (ground (arith, len))
        (good_parcel p later all.0) (ground (arith, len, size))
    ∙ ap (λ n. parse_loop (length ps + fuel) (drop n rx) (next_command rx command)) size
    ∙ ap (λ bytes. parse_loop (length ps + fuel) bytes (next_command rx command))
        (drop-parcel p later)
    ∙ ap (parse_loop (length ps + fuel) later) (next_command-parcel p later command all.0)
    ∙ parse_loop-put_client_parcels ps fuel rest (command_of p command) all.1

parse_loop-IsStart :
    (fuel : ℕ) (tail : List ℕ) (command : ℕ)
    → IsStart tail
    → parse_loop (suc fuel) tail command ≡ kept tail command
unfolding parse_loop
parse_loop-IsStart fuel tail command (inl short) =
    let e : ltb (length tail) 16 ≡ true = ground arith in rw (e, parse_loop) refl
parse_loop-IsStart fuel tail command (inr (good, part)) = elim (Bool-cases (ltb (length tail) 16)) [
  | inl short ↦ rw (short, parse_loop) refl
  | inr long ↦
      let e : ltb (length tail) (be32_at tail 8) ≡ true = ground arith in
      rw (long, good, e, parse_loop) refl
]

length-put_client_parcels :
    (ps : List Parcel) (tail : List ℕ)
    → length ps + length tail ≤ length (put_client_parcels ps tail)
unfolding put_client_parcels
length-put_client_parcels [] tail = omega arith
length-put_client_parcels (p ∷ ps) tail =
    omega (
      arith,
      length-append p.payload (put_client_parcels ps tail),
      length-put_client_parcels ps tail,
    )

-- When bytes arrive that the buffer has room for, and that make it hold some whole parcels and the
-- start of another, the client is kept, the start stays in the buffer, and the command is that of the
-- last source control among the parcels, or 0 if there is none.
pub read_client-put_client_parcels :
    (c : Client) (bytes : List ℕ) (ps : List Parcel) (tail : List ℕ)
    → 1 ≤ length bytes
    → length c.rx + length bytes ≤ rx_buffer_size
    → All IsParcel ps
    → IsStart tail
    → c.rx ++ bytes ≡ put_client_parcels ps tail
    → read_client c (received bytes) ≡ (true, record c { rx = tail }, last_command ps 0)
unfolding read_client
read_client-put_client_parcels c bytes ps tail some_byte room all start e =
    let whole : take (rx_buffer_size - length c.rx) bytes ≡ bytes =
      take_all _ bytes (omega arith) in
    let taken : (length bytes == 0) ≡ false = ground arith in
    let rx = put_client_parcels ps tail in
    let more : ℕ = length rx - length ps in
    let parsed : parse_loop (suc (length rx)) rx 0 ≡ kept tail (last_command ps 0) =
      ap (λ n. parse_loop n rx 0) (omega (arith, length-put_client_parcels ps tail))
      ∙ parse_loop-put_client_parcels ps (suc more) tail 0 all
      ∙ parse_loop-IsStart more tail (last_command ps 0) start in
    rw (whole, taken, e, parsed, read_client) refl
