-- ===== src/Accessory/Tests.antt =====
-- The theorems about reads and writes of the session applied to concrete answers of the driver.
use qdplay.Prelude.{
  some, ◌+◌, ◌↔◌, ◌<◌, ℕ, ◌≡◌, refl, true, false, List, [], ◌∷◌, ◌++◌, length, arith, ◌≤◌,
}
use qdplay.Posix.{eio, done}
use qdplay.Accessory.{Session}
use qdplay.Accessory.Read.{Reading, arrived, interrupted, read_message_tail}
use qdplay.Accessory.Read.Lossless.{Got, ahead, bytes_of, read_message_tail-Got}
use qdplay.Accessory.Watchdog.{Watch, is_sent, tick}
use qdplay.Accessory.Watchdog.Verdict.{IsAlive, tick-IsAlive, tick-writes}
use qdplay.Accessory.Write.{Writing, accepted, refused, write_all_locked, write_with_padding_512}
use qdplay.Accessory.Write.Whole.{
  IsPadded, taken, write_with_padding_512-IsPadded, write_all_locked-done,
}

abbrev running : Session
running = record {
  has_fd = true;
  stopping = false;
  link_failed = false;
  has_processor = true;
  bounce = 3 ∷ [];
  last_read_ts = 0;
  last_write_ts = 0;
  send_buffer_size = 0;
}

-- A byte is left over, and three more arrive behind a signal, the last of the next message.
abbrev readings : List Reading
readings = interrupted ∷ arrived (4 ∷ 5 ∷ 6 ∷ []) 10 ∷ []

abbrev start : List ℕ
start = 1 ∷ 2 ∷ []

readings_enough : 5 ≤ length (start ++ ahead running readings)
unfolding bytes_of
readings_enough = omega arith

read_message_tail-Got_example :
    Got 5 5 start readings running (read_message_tail start 5 5 readings running)
read_message_tail-Got_example =
    read_message_tail-Got start 5 5 readings running (omega arith) (omega arith) (refl, refl)
      (tt, ((omega arith, omega arith), tt)) readings_enough

-- The driver takes two bytes and then fails.
abbrev broken_writings : List Writing
broken_writings = accepted 2 ∷ refused eio ∷ []

write_with_padding_512-IsPadded_example :
    IsPadded
      (1 ∷ [])
      (2 ∷ 3 ∷ [])
      (write_with_padding_512 (λ size. true) (1 ∷ []) (2 ∷ 3 ∷ []) broken_writings 20 running)
write_with_padding_512-IsPadded_example =
    write_with_padding_512-IsPadded (λ size. true) (1 ∷ []) (2 ∷ 3 ∷ []) broken_writings 20 running

abbrev writings : List Writing
writings = accepted 2 ∷ Writing.interrupted ∷ accepted 4 ∷ []

writings_enough : 3 ≤ taken writings
unfolding taken
writings_enough = omega arith

write_all_locked-done_example :
    let (r, sent, _, _) = write_all_locked 0 (7 ∷ 8 ∷ 9 ∷ []) writings 20 running in
    (r ≡ done 3) × (sent ≡ 7 ∷ 8 ∷ 9 ∷ [])
write_all_locked-done_example =
    write_all_locked-done 0 (7 ∷ 8 ∷ 9 ∷ []) writings 20 running
      (omega arith, (tt, (omega arith, tt))) writings_enough

-- A session of the V2 protocol, three seconds after its last write.
abbrev watch : Watch
watch = record {
  stopping = false;
  link_failed = false;
  has_source = true;
  read_timeout_sec = some 5;
  started_ts = 0;
  last_read_ts = 2000000;
  last_write_ts = 1000000;
}

tick-IsAlive_example : ((tick 4000000 is_sent watch).0.stopping ≡ false) ↔ IsAlive 4000000 watch
tick-IsAlive_example = tick-IsAlive 4000000 is_sent watch

watch_goes_on : (tick 4000000 is_sent watch).0.stopping ≡ false
unfolding tick
watch_goes_on = refl

tick-writes_example : 4000000 < (tick 4000000 is_sent watch).0.last_write_ts + 3000000
tick-writes_example = tick-writes 4000000 5 watch refl watch_goes_on
