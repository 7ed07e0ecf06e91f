-- ===== src/MessagingService/Clients/Inv.antt =====
-- The buffers of the clients always have room.
use qdplay.Prelude.{
  ℕ, zero, suc, ◌-◌, ◌≡◌, ◌≤◌, ◌<◌, Option, none, some, List, [], ◌∷◌, ◌++◌, length, get_elem?, set,
  take, drop, ltb, ◌==◌, All, arith, Bool-cases, Option-cases, inl, inr, length-append, length-set,
  length-take, length-drop,
}
use qdplay.Words.{be32_at}
use qdplay.Posix.{Errno, Outcome, done, failed}
use qdplay.MessagingService.{max_clients, rx_buffer_size, Client, Service, Network}
use qdplay.MessagingService.Clients.{
  Parsed, kept, broken, no_fuel, is_bad_parcel, next_command, parse_loop, Recv, received, closed,
  recv_failed, read_client, remove_client, serve_client, serve_clients, accept_fd, accept,
  handle_clients, after_parse, peer_pid,
}

-- The buffer has room for another byte, so a `recv` that returns 0 means that the peer has closed.
abbrev pub HasRx : Client → Type 0
HasRx c = length c.rx < rx_buffer_size

-- At most eight clients, each with room in its buffer.
pub record Inv (s : Service) : Type 0 where
  pub count : length s.clients ≤ max_clients
  pub rooms : All HasRx s.clients

-- How the loop can end: with a bad parcel, or with less left than the buffer holds.
abbrev pub Ends : Parsed → Type 0
Ends (kept rx command) = length rx < rx_buffer_size
Ends (broken command) = Unit
Ends no_fuel = ⊥

parse_loop-Ends :
    (fuel : ℕ) (rx : List ℕ) (command : ℕ) → length rx < fuel → Ends (parse_loop fuel rx command)
unfolding parse_loop
parse_loop-Ends zero rx command h = absurd (omega arith)
parse_loop-Ends (suc fuel) rx command h = elim (Bool-cases (ltb (length rx) 16)) [
  | inl short ↦ rw (short, Ends, parse_loop) (ground arith)
  | inr long ↦ elim (Bool-cases (is_bad_parcel rx)) [
    | inl bad ↦ rw (long, bad, Ends, parse_loop) tt
    | inr good ↦ elim (Bool-cases (ltb (length rx) (be32_at rx 8))) [
      | inl part ↦ rw (long, good, part, Ends, parse_loop) (ground arith)
      | inr whole ↦
          rw (long, good, whole, Ends, parse_loop)
            (parse_loop-Ends fuel (drop (be32_at rx 8) rx) (next_command rx command)
              (ground (arith, length-drop (be32_at rx 8) rx)))
    ]
  ]
]

after_parse-HasRx : (c : Client) (p : Parsed) → HasRx c → Ends p → HasRx (after_parse c p).1
after_parse-HasRx c (kept rx command) v e = e
after_parse-HasRx c (broken command) v e = v
after_parse-HasRx c no_fuel v e = v

read_client-HasRx : (c : Client) (r : Recv) → HasRx c → HasRx (read_client c r).1
unfolding read_client
read_client-HasRx c closed v = v
read_client-HasRx c (recv_failed Errno.eintr) v = v
read_client-HasRx c (recv_failed Errno.eagain) v = v
read_client-HasRx c (recv_failed e) v = v
read_client-HasRx c (received bytes) v =
    let rx = c.rx ++ take (rx_buffer_size - length c.rx) bytes in
    elim (Bool-cases (length (take (rx_buffer_size - length c.rx) bytes) == 0)) [
      | inl none_taken ↦ rw (none_taken, read_client) v
      | inr taken ↦
          rw (taken, read_client)
            (after_parse-HasRx c (parse_loop (suc (length rx)) rx 0) v
              (parse_loop-Ends (suc (length rx)) rx 0 (omega arith)))
    ]

All-set : (cs : List Client) (i : ℕ) (c : Client) → All HasRx cs → HasRx c → All HasRx (set cs i c)
All-set [] i c all v = tt
All-set (d ∷ cs) zero c all v = (v, all.1)
All-set (d ∷ cs) (suc i) c all v = (all.0, All-set cs i c all.1 v)

All-take : (n : ℕ) (cs : List Client) → All HasRx cs → All HasRx (take n cs)
All-take zero cs all = tt
All-take (suc n) [] all = tt
All-take (suc n) (c ∷ cs) all = (all.0, All-take n cs all.1)

All-get : (cs : List Client) (i : ℕ) (c : Client) → All HasRx cs → get_elem? cs i ≡ some c → HasRx c
All-get [] i c all e = ground arith
All-get (d ∷ cs) zero c all e = ground arith
All-get (d ∷ cs) (suc i) c all e = All-get cs i c all.1 e

All-snoc : (cs : List Client) (c : Client) → All HasRx cs → HasRx c → All HasRx (cs ++ (c ∷ []))
All-snoc [] c all v = (v, tt)
All-snoc (d ∷ cs) c all v = (all.0, All-snoc cs c all.1 v)

remove_client-All :
    (cs : List Client) (i : ℕ)
    → All HasRx cs
    → (length (remove_client cs i) ≤ length cs) × All HasRx (remove_client cs i)
unfolding remove_client
remove_client-All cs i all = elim (Option-cases (get_elem? cs (length cs - 1))) [
  | inl e ↦ rw (e, remove_client) (omega arith, all)
  | inr (l, e) ↦
      rw (e, remove_client)
        (
          omega (arith, length-take (length cs - 1) (set cs i l), length-set cs i l),
          All-take (length cs - 1) (set cs i l)
              (All-set cs i l all (All-get cs (length cs - 1) l all e)),
        )
]

serve_client-Inv : (i : ℕ) (r : Option Recv) (s : Service) → Inv s → Inv (serve_client i r s).0
unfolding serve_client
serve_client-Inv i none s v = v
serve_client-Inv i (some r) s v = elim (Option-cases (get_elem? s.clients i)) [
  | inl e ↦ rw (e, serve_client) v
  | inr (c, e) ↦
      let room : HasRx (read_client c r).1 =
        read_client-HasRx c r (All-get s.clients i c v.rooms e) in
      let removed = remove_client-All s.clients i v.rooms in
      elim (Bool-cases (read_client c r).0) [
        | inl keep ↦
            rw (e, keep, serve_client)
              (record {
                count = omega (arith, length-set s.clients i (read_client c r).1, v.count);
                rooms = All-set s.clients i (read_client c r).1 v.rooms room;
              })
        | inr gone ↦
            rw (e, gone, serve_client)
              (record { count = omega (arith, removed.0, v.count); rooms = removed.1 })
      ]
]

serve_clients-Inv :
    (ready : ℕ → Option Recv) (i : ℕ) (s : Service) → Inv s → Inv (serve_clients ready i s).0
unfolding serve_clients
serve_clients-Inv ready zero s v = v
serve_clients-Inv ready (suc i) s v =
    serve_clients-Inv ready i (serve_client i (ready i) s).0 (serve_client-Inv i (ready i) s v)

accept-Inv :
    (net : Network) (fd credentials : Outcome ℕ) (active_pid count : ℕ) (s : Service)
    → Inv s
    → Inv (accept net fd credentials active_pid count s).0
unfolding accept accept_fd
accept-Inv net (failed e) credentials active_pid count s v = v
accept-Inv net (done fd) credentials active_pid count s v =
    let c : Client = record { fd = fd; pid = peer_pid credentials; rx = [] } in
    elim (Bool-cases (ltb (length s.clients) max_clients)) [
      | inl free ↦
          rw (free, accept, accept_fd)
            (record {
              count = ground (arith, length-append s.clients (c ∷ []));
              rooms = All-snoc s.clients c v.rooms (omega arith);
            })
      | inr full ↦ rw (full, accept, accept_fd) v
    ]

-- A round of the clients' thread, whatever the clients have sent and whoever connects, keeps the
-- clients to eight at most, each with room in its buffer for another byte.
pub handle_clients-Inv :
    (net : Network) (ready : ℕ → Option Recv) (connection : Option (Outcome ℕ × Outcome ℕ))
    (active_pid count : ℕ) (s : Service)
    → Inv s
    → Inv (handle_clients net ready connection active_pid count s).0
unfolding handle_clients
handle_clients-Inv net ready none active_pid count s v =
    serve_clients-Inv ready (length s.clients) s v
handle_clients-Inv net ready (some (fd, credentials)) active_pid count s v =
    accept-Inv net fd credentials active_pid count _
      (serve_clients-Inv ready (length s.clients) s v)
