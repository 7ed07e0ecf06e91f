-- ===== src/Accessory/Read/Lossless.antt =====
-- No byte of the stream is lost between the driver and the message buffer.
use mathlib.Core.List.{append_assoc}
use qdplay.Prelude.{
  ℕ, zero, suc, ◌+◌, ◌-◌, ◌≡◌, ◌≤◌, ◌<◌, refl, sym, ◌∙◌, ap, min, true, false, not, ◌||◌, List, [],
  ◌∷◌, ◌++◌, length, take, drop, ltb, leb, ◌==◌, All, arith, Bool-cases, inl, inr, length-append,
  length-take, take_all,
}
use qdplay.Posix.{Outcome, done}
use qdplay.Accessory.{Session, round_up, max_read_chunk}
use qdplay.Accessory.Read.{
  Reading, arrived, interrupted, woken, broke, fetch, read, Tail, complete, after_read, tail_loop,
  read_message_tail,
}

-- The bytes that arrive.
unfoldable pub bytes_of : List Reading → List ℕ
bytes_of [] = []
bytes_of (arrived bs now ∷ rs) = bs ++ bytes_of rs
bytes_of (_ ∷ rs) = bytes_of rs

-- A signal that does not stop the session, or some bytes, a packet of 512 at most.
abbrev pub IsPacket : Reading → Type 0
IsPacket (arrived bs now) = (1 ≤ length bs) × (length bs ≤ 512)
IsPacket interrupted = Unit
IsPacket _ = ⊥

-- The session is open and not being stopped.
abbrev pub Live : Session → Type 0
Live s = (s.has_fd ≡ true) × (s.stopping ≡ false)

-- The bytes that are not handed out yet.
abbrev pub ahead : Session → List Reading → List ℕ
ahead s rs = s.bounce ++ bytes_of rs

take-append-drop : (n : ℕ) (xs ys : List ℕ) → take n xs ++ (drop n xs ++ ys) ≡ xs ++ ys
take-append-drop zero xs ys = refl
take-append-drop (suc n) [] ys = refl
take-append-drop (suc n) (x ∷ xs) ys = ap (◌∷◌ x) (take-append-drop n xs ys)

append-empty : (xs ys : List ℕ) → length xs ≡ 0 → xs ++ ys ≡ ys
append-empty [] ys e = refl
append-empty (x ∷ xs) ys e = absurd (omega arith)

-- Bytes were fetched, all of them, and the session goes on.
record Fetched (rs : List Reading) (s : Session) (r : Outcome (Unit {0}) × List Reading × Session)
    : Type 0 where
  rest : List Reading
  after : Session
  result : r ≡ (done tt, rest, after)
  live : Live after
  filled : 1 ≤ length after.bounce
  packets : All IsPacket rest
  same : ahead after rest ≡ bytes_of rs

fetch-Fetched :
    (request : ℕ) (rs : List Reading) (s : Session)
    → 512 ≤ request
    → Live s
    → All IsPacket rs
    → 1 ≤ length (bytes_of rs)
    → Fetched rs s (fetch request rs s)
unfolding fetch bytes_of
fetch-Fetched request [] s big live all more = absurd (omega arith)
fetch-Fetched request (arrived bs now ∷ rs) s big live all more =
    let whole : take request bs ≡ bs = take_all request bs (omega (arith, all.0.1)) in
    record {
      rest = rs;
      after = (fetch request (arrived bs now ∷ rs) s).2;
      result = refl;
      live = live;
      filled = rw whole all.0.0;
      packets = all.1;
      same = rw whole refl;
    }
fetch-Fetched request (interrupted ∷ rs) s big live all more =
    let f = fetch-Fetched request rs s big live all.1 more in
    record {
      rest = f.rest;
      after = f.after;
      result = f.result;
      live = f.live;
      filled = f.filled;
      packets = f.packets;
      same = f.same;
    }
fetch-Fetched request (woken ∷ rs) s big live all more = absurd all.0
fetch-Fetched request (broke e ∷ rs) s big live all more = absurd all.0

-- Some bytes were read, at most `len`, and no byte is lost.
record Took (len : ℕ) (rs : List Reading) (s : Session)
    (r : Outcome (List ℕ) × List Reading × Session) : Type 0 where
  bytes : List ℕ
  rest : List Reading
  after : Session
  result : r ≡ (done bytes, rest, after)
  some_byte : 1 ≤ length bytes
  fits : length bytes ≤ len
  live : Live after
  packets : All IsPacket rest
  same : bytes ++ ahead after rest ≡ ahead s rs

read-Took :
    (len : ℕ) (rs : List Reading) (s : Session)
    → 1 ≤ len
    → Live s
    → All IsPacket rs
    → 1 ≤ length (ahead s rs)
    → Took len rs s (read len rs s)
unfolding read
read-Took len rs s pos live all more =
    let opened : (not s.has_fd || s.stopping) ≡ false = ground (arith, live) in
    let some_len : (len == 0) ≡ false = ground arith in
    elim (Bool-cases (ltb 0 (length s.bounce))) [
      | inl left ↦ record {
        bytes = take len s.bounce;
        rest = rs;
        after = record s { bounce = drop len s.bounce };
        result = rw (opened, some_len, left, read) refl;
        some_byte = ground (arith, length-take len s.bounce);
        fits = omega (arith, length-take len s.bounce);
        live = live;
        packets = all;
        same = take-append-drop len s.bounce (bytes_of rs);
      }
      | inr empty ↦
          let none_left : length s.bounce ≡ 0 = ground arith in
          let f =
            fetch-Fetched (min (round_up len) max_read_chunk) rs s (omega arith) live all
              (omega (arith, more, length-append s.bounce (bytes_of rs), none_left)) in
          record {
            bytes = take len f.after.bounce;
            rest = f.rest;
            after = record (f.after) { bounce = drop len f.after.bounce };
            result = rw (opened, some_len, empty, f.result, read) refl;
            some_byte = omega (arith, length-take len f.after.bounce, f.filled);
            fits = omega (arith, length-take len f.after.bounce);
            live = f.live;
            packets = f.packets;
            same =
                take-append-drop len f.after.bounce (bytes_of f.rest)
                ∙ f.same
                ∙ sym (append-empty s.bounce (bytes_of rs) none_left);
          }
    ]

-- The message is there, in a buffer of `capacity` bytes, and what the stream held beyond it is still
-- ahead.
pub record Got (required capacity : ℕ) (buffer : List ℕ) (rs : List Reading) (s : Session)
    (r : Tail × List Reading × Session) : Type 0 where
  pub bytes : List ℕ
  pub rest : List Reading
  pub after : Session
  pub result : r ≡ (complete bytes, rest, after)
  pub enough : required ≤ length bytes
  pub fits : length bytes ≤ capacity
  pub same : bytes ++ ahead after rest ≡ buffer ++ ahead s rs

after_read-done :
    (next : List ℕ → List Reading → Session → Tail × List Reading × Session) (bs : List ℕ)
    (rs : List Reading) (s : Session)
    → 1 ≤ length bs
    → after_read next (done bs, rs, s) ≡ next bs rs s
after_read-done next [] rs s h = absurd (omega arith)
after_read-done next (b ∷ bs) rs s h = refl

-- One turn of the loop, with the turns after it.
turn :
    (fuel required capacity : ℕ) (buffer bs : List ℕ) (rs rest : List Reading) (s after : Session)
    → leb required (length buffer) ≡ false
    → read (capacity - length buffer) rs s ≡ (done bs, rest, after)
    → 1 ≤ length bs
    → bs ++ ahead after rest ≡ ahead s rs
    → Got required capacity
        (buffer ++ bs)
        rest
        after
        (tail_loop fuel required capacity (buffer ++ bs) rest after)
    → Got required capacity buffer rs s (tail_loop (suc fuel) required capacity buffer rs s)
unfolding tail_loop
turn fuel required capacity buffer bs rs rest s after short result some_byte same g = record {
  bytes = g.bytes;
  rest = g.rest;
  after = g.after;
  result =
      rw (short, result, tail_loop)
        (after_read-done (λ bs rs' s'. tail_loop fuel required capacity (buffer ++ bs) rs' s') bs
            rest after some_byte
          ∙ g.result);
  enough = g.enough;
  fits = g.fits;
  same = g.same ∙ append_assoc buffer bs (ahead after rest) ∙ ap (◌++◌ buffer) same;
}

tail_loop-Got :
    (fuel required capacity : ℕ) (buffer : List ℕ) (rs : List Reading) (s : Session)
    → required - length buffer < fuel
    → required ≤ capacity
    → length buffer ≤ capacity
    → Live s
    → All IsPacket rs
    → required ≤ length (buffer ++ ahead s rs)
    → Got required capacity buffer rs s (tail_loop fuel required capacity buffer rs s)
unfolding tail_loop
tail_loop-Got zero required capacity buffer rs s steps room inside live all more =
    absurd (omega arith)
tail_loop-Got (suc fuel) required capacity buffer rs s steps room inside live all more =
    elim (Bool-cases (leb required (length buffer))) [
      | inl enough ↦ record {
        bytes = buffer;
        rest = rs;
        after = s;
        result = rw (enough, tail_loop) refl;
        enough = ground arith;
        fits = inside;
        same = refl;
      }
      | inr short ↦
          let lacks : length buffer < required = ground arith in
          let ahead_len : length (buffer ++ ahead s rs) ≡ length buffer + length (ahead s rs) =
            length-append buffer (ahead s rs) in
          let t = read-Took (capacity - length buffer) rs s (omega arith) live all (omega arith) in
          let longer : length (buffer ++ t.bytes) ≡ length buffer + length t.bytes =
            length-append buffer t.bytes in
          let later : length ((buffer ++ t.bytes) ++ ahead t.after t.rest)
              ≡ length (buffer ++ ahead s rs) =
            ap length
              (append_assoc buffer t.bytes (ahead t.after t.rest) ∙ ap (◌++◌ buffer) t.same) in
          turn fuel required capacity buffer t.bytes rs t.rest s t.after short t.result t.some_byte
            t.same
            (tail_loop-Got fuel required capacity (buffer ++ t.bytes) t.rest t.after
              (omega (arith, longer, t.some_byte)) room (omega (arith, longer, t.fits)) t.live
              t.packets (omega (arith, later)))
    ]

-- While the session goes on and packets of up to 512 bytes arrive that hold the rest of a message,
-- the message is completed: the buffer holds as many bytes as are required or more, within its
-- capacity, and with what is not handed out yet they are the bytes that arrived, in order and
-- without a gap.
pub read_message_tail-Got :
    (buffer : List ℕ) (required capacity : ℕ) (rs : List Reading) (s : Session)
    → required ≤ capacity
    → length buffer ≤ capacity
    → Live s
    → All IsPacket rs
    → required ≤ length (buffer ++ ahead s rs)
    → Got required capacity buffer rs s (read_message_tail buffer required capacity rs s)
unfolding read_message_tail
read_message_tail-Got buffer required capacity rs s room inside live all more =
    let fits : ltb capacity required ≡ false = ground arith in
    let g =
      tail_loop-Got (suc required) required capacity buffer rs s (omega arith) room inside live all
        more in
    record {
      bytes = g.bytes;
      rest = g.rest;
      after = g.after;
      result = rw (fits, read_message_tail) g.result;
      enough = g.enough;
      fits = g.fits;
      same = g.same;
    }
