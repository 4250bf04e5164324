-- ===== src/Tcpip/Loops.antt =====
-- tcpip.c: the loops over a socket end, and read or write exactly what they are asked for.
use greybus_zephyr.Base.{
  ℕ, cut, zero, suc, ◌+◌, ◌-◌, ◌≤◌, ◌<◌, ◌≡◌, ◌∙◌, inl, inr, refl, sym, ap, true, false, Bool-cases,
  Option, none, some, [], ◌∷◌, ◌++◌, Bytes, arith, ltb, lt→ltb, ge→ltb, ltb→lt, take, drop, length,
  length-append, length-drop, append-nil, append_assoc, ℤ, pos, negsuc, take-append-drop,
}
use greybus_zephyr.Tcpip.{
  Recv, got, fails, after_recv, read_loop, read_data, write_loop, write_data,
}

-- How a read ends: with all its bytes, with the peer's end of the connection, or with an error.
pub data ReadEnd (len : ℕ) (ret : ℤ) (bytes : Bytes) : Type 0 where
  whole : ret ≡ pos len → length bytes ≡ len → ReadEnd len ret bytes
  closed : ret ≡ pos 0 → length bytes < len → ReadEnd len ret bytes
  failed : (n : ℕ) → ret ≡ negsuc n → length bytes < len → ReadEnd len ret bytes

-- A loop that has ended, and how.
abbrev pub Ends : {S : Type 0} → ℕ → Option ((ℤ × Bytes) × S) → Type 0
Ends len none = ⊥
Ends len (some ((ret, bytes), s)) = ReadEnd len ret bytes

module _ {S : Type 0} (recv : S → ℕ → Recv × S) where
  -- What the code relies on in every `zsock_recv`: it brings no more bytes than it is asked for.
  pub record IsSocket : Type 0 where
    pub bounded : (s : S) (n : ℕ) (bytes : Bytes) → (recv s n).0 ≡ got bytes → length bytes ≤ n

  after_recv-Ends :
      (len : ℕ) (r : Recv) (received : Bytes) (s : S) (next : Bytes → Option ((ℤ × Bytes) × S))
      → length received < len
      → ((b : ℕ) (bs : Bytes) → r ≡ got (b ∷ bs) → Ends len (next (received ++ b ∷ bs)))
      → Ends len (after_recv recv r received s next)
  after_recv-Ends len (fails n) received s next h k = failed n refl h
  after_recv-Ends len (got []) received s next h k = closed refl h
  after_recv-Ends len (got (b ∷ bs)) received s next h k = k b bs refl

  -- Every round brings a byte or ends the loop.
  read_loop-Ends :
      IsSocket
      → (fuel : ℕ) (received : Bytes) (len : ℕ) (s : S) → length received ≤ len
      → len - length received < fuel
      → Ends len (read_loop recv fuel received len s)
  unfolding read_loop
  read_loop-Ends k zero received len s h f = absurd (omega arith)
  read_loop-Ends k (suc fuel) received len s h f = elim (Bool-cases (ltb (length received) len)) [
    | inr done ↦ rw (done, read_loop) (whole (ap pos (ground (arith, done))) (ground (arith, done)))
    | inl more ↦
        rw (more, read_loop)
          (after_recv-Ends len (recv s (len - length received)).0 received
            (recv s (len - length received)).1 _ (ltb→lt _ _ more)
            (λ b bs e.
              read_loop-Ends k fuel (received ++ b ∷ bs) len (recv s (len - length received)).1
                (omega (
                  arith,
                  k.bounded s (len - length received) (b ∷ bs) e,
                  length-append received (b ∷ bs),
                  ltb→lt _ _ more,
                ))
                (omega (arith, length-append received (b ∷ bs), ltb→lt _ _ more))))
  ]

  -- If no receive brings more bytes than it is asked for, read_data ends within len + 1 rounds,
  -- whatever the peer does: with exactly len bytes, or with an error or a closed connection
  -- before they are complete.
  pub read_data-Ends : IsSocket → (len : ℕ) (s : S) → Ends len (read_data recv len s)
  unfolding read_data
  read_data-Ends k len s = read_loop-Ends k (suc len) [] len s (omega arith) (omega arith)

  -- The bytes that the peer has sent and that are not yet read: while there are some, a receive brings
  -- at least one of them, in order, however the network has cut them up.
  pub record Delivers (stream : S → Bytes) : Type 0 where
    pub delivers :
        (s : S) (n : ℕ)
        → 0 < n
        → 0 < length (stream s)
        → (b : ℕ) × (bs : Bytes) × ((recv s n).0 ≡ got (b ∷ bs))
          × (length (b ∷ bs) ≤ n)
          × (stream s ≡ b ∷ bs ++ stream (recv s n).1)

module _ {S : Type 0} (recv : S → ℕ → Recv × S) (stream : S → Bytes)
    (d : Delivers recv stream) where
  read_loop-stream :
      (fuel : ℕ) (received need rest : Bytes) (len : ℕ) (s : S)
      → stream s ≡ need ++ rest
      → length received + length need ≡ len
      → length need < fuel
      → (s' : S) × (read_loop recv fuel received len s ≡ some ((pos len, received ++ need), s'))
        × (stream s' ≡ rest)
  unfolding read_loop
  read_loop-stream zero received need rest len s e h f = absurd (omega arith)
  read_loop-stream (suc fuel) received [] rest len s e h f =
      let done : ltb (length received) len ≡ false = ge→ltb _ _ (omega arith) in
      let whole : length received ≡ len = omega arith in
      (s, rw (done, read_loop) (rw (whole, append-nil) refl), e)
  read_loop-stream (suc fuel) received (x ∷ need) rest len s e h f =
      let more : ltb (length received) len ≡ true = lt→ltb _ _ (omega arith) in
      let (b, bs, brings, short, left) =
        d.delivers s (len - length received) (omega arith) (rw e (omega (arith))) in
      let s1 = (recv s (len - length received)).1 in
      let (ws, cut_is, left_is) =
        cut (b ∷ bs) (stream s1) (x ∷ need) rest (sym left ∙ e) (omega (arith)) in
      let (s', runs, after) =
        read_loop-stream fuel (received ++ b ∷ bs) ws rest len s1 left_is
          (omega
            (arith, length-append received (b ∷ bs), length-append (b ∷ bs) ws, ap length cut_is))
          (omega (arith, length-append (b ∷ bs) ws, ap length cut_is)) in
      let joined : (received ++ b ∷ bs) ++ ws ≡ received ++ x ∷ need =
        append_assoc received (b ∷ bs) ws ∙ ap (λ l. received ++ l) (sym cut_is) in
      (
        s',
        rw (more, read_loop) (rw brings (runs ∙ ap (λ l. some ((pos len, l), s')) joined)),
        after,
      )

  -- A read of bytes that are there takes exactly these.
  pub read_data-stream :
      (need rest : Bytes) (len : ℕ) (s : S)
      → length need ≡ len
      → stream s ≡ need ++ rest
      → (s' : S) × (read_data recv len s ≡ some ((pos len, need), s')) × (stream s' ≡ rest)
  unfolding read_data
  read_data-stream need rest len s h e =
      read_loop-stream (suc len) [] need rest len s e (omega arith) (omega arith)

module _ {S : Type 0} (send : S → Bytes → ℤ × S) where
  -- What the code relies on in `zsock_send`: it takes at least one byte of the data, from the front.
  pub record Takes (wire : S → Bytes) : Type 0 where
    pub takes :
        (s : S) (b : ℕ) (bs : Bytes)
        → (k : ℕ) × ((send s (b ∷ bs)).0 ≡ pos k)
          × (0 < k)
          × (k ≤ length (b ∷ bs))
          × (wire (send s (b ∷ bs)).1 ≡ wire s ++ take k (b ∷ bs))

  module _ (wire : S → Bytes) (t : Takes wire) where
    write_loop-wire :
        (fuel : ℕ) (left : Bytes) (transmitted : ℕ) (s : S)
        → length left < fuel
        → (total : ℕ) → transmitted + length left ≡ total
        → (s' : S) × (write_loop send fuel left transmitted s ≡ some (pos total, s'))
          × (wire s' ≡ wire s ++ left)
    unfolding write_loop
    write_loop-wire zero left transmitted s f total e = absurd (omega arith)
    write_loop-wire (suc fuel) [] transmitted s f total e =
        let none_left : transmitted ≡ total = omega arith in
        (s, rw none_left refl, rw append-nil refl)
    write_loop-wire (suc fuel) (b ∷ bs) transmitted s f total e =
        let (k, ret, some_sent, bound, out) = t.takes s b bs in
        let (s', runs, after) =
          write_loop-wire fuel (drop k (b ∷ bs)) (transmitted + k) (send s (b ∷ bs)).1
            (omega (arith, length-drop k (b ∷ bs))) total (omega (arith, length-drop k (b ∷ bs))) in
        let whole : wire s ++ (take k (b ∷ bs) ++ drop k (b ∷ bs)) ≡ wire s ++ b ∷ bs =
          ap (λ l. wire s ++ l) (take-append-drop k (b ∷ bs)) in
        (s', rw (ret, runs) refl, after ∙ (rw (out, append_assoc) whole))

    pub write_data-wire :
        (bytes : Bytes) (s : S)
        → (s' : S) × (write_data send bytes s ≡ some (pos (length bytes), s'))
          × (wire s' ≡ wire s ++ bytes)
    unfolding write_data
    write_data-wire bytes s =
        write_loop-wire (suc (length bytes)) bytes 0 s (omega arith) (length bytes) (omega arith)
