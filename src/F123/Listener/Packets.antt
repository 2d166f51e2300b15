-- ===== src/F123/Listener/Packets.antt =====
-- What the listener puts in the channel, and when it ends.
use formulatel.Common.{
  ℕ, ◌≤◌, ◌<◌, ◌≡◌, ap, ◌∙◌, sym, subst, ◌⊎◌, inl, inr, Option, none, some, List, [], ◌∷◌, ◌++◌,
  All, length, take, length-take, Option-cases, arith,
}
use mathlib.Core.List.{append_assoc, append-nil}
use formulatel.F123.Listener.{
  Turn, cancelled, read, NetError, deadline_exceeded, broken, Listener, finished, max_packet_size,
  listen_loop, listen,
}

-- A round that keeps the loop going: some bytes, or none and no error but the deadline.
abbrev pub GoesOn : Turn → Type 0
GoesOn cancelled = ⊥
GoesOn (read [] error) = (error ≡ none) ⊎ (error ≡ some deadline_exceeded)
GoesOn (read (_ ∷ _) error) = Unit {0}

-- The packets of the rounds: what fits the buffer of each datagram that is not empty.
unfoldable pub packets_of : List Turn → List (List ℕ)
packets_of [] = []
packets_of (cancelled ∷ turns) = packets_of turns
packets_of (read [] error ∷ turns) = packets_of turns
packets_of (read (b ∷ bs) error ∷ turns) = take max_packet_size (b ∷ bs) ∷ packets_of turns

abbrev put_packet : Listener → List ℕ → Listener
put_packet f datagram = record f {
  packet_buffer = f.packet_buffer ++ take max_packet_size datagram ∷ [];
}

loop-bytes :
    (f : Listener) (b : ℕ) (bs : List ℕ) (error : Option NetError) (turns : List Turn)
    → listen_loop f (read (b ∷ bs) error ∷ turns) ≡ listen_loop (put_packet f (b ∷ bs)) turns
unfolding listen_loop
loop-bytes f b bs error turns = ground arith

-- Rounds that go on put their packets in the channel, in order, and leave the rest to what follows.
pub listen_loop-append :
    (f : Listener) (before after : List Turn)
    → All GoesOn before
    → listen_loop f (before ++ after)
      ≡ listen_loop (record f { packet_buffer = f.packet_buffer ++ packets_of before }) after
unfolding listen_loop packets_of
listen_loop-append f [] after h = rw append-nil
listen_loop-append f (cancelled ∷ before) after h = absurd h.0
listen_loop-append f (read [] error ∷ before) after (inl e, h) =
    rw e (listen_loop-append f before after h)
listen_loop-append f (read [] error ∷ before) after (inr e, h) =
    rw e (listen_loop-append f before after h)
listen_loop-append f (read (b ∷ bs) error ∷ before) after h =
    loop-bytes f b bs error (before ++ after)
    ∙ listen_loop-append (put_packet f (b ∷ bs)) before after h.1
    ∙ rw append_assoc

module _ (f : Listener) (fresh : f.finished_with_error ≡ none) (before after : List Turn)
    (goes_on : All GoesOn before) where
  -- A listener that has not failed yet, and meets a cancelled context after rounds that go on: it
  -- returns nil, all packets of those rounds are in the channel in order, and later rounds are not
  -- looked at.
  pub listen_cancelled :
      listen f (before ++ cancelled ∷ after)
      ≡ (finished none, record f { packet_buffer = f.packet_buffer ++ packets_of before })
  unfolding listen listen_loop
  listen_cancelled =
      rw (fresh, listen)
        (listen_loop-append f before (cancelled ∷ after) goes_on
          ∙ ap
              (λ e.
                let g : Listener = record {
                  packet_buffer = f.packet_buffer ++ packets_of before;
                  finished_with_error = e;
                } in
                (finished none, g))
              fresh)

  -- A read without bytes that fails, other than by the deadline, after rounds that go on, of a
  -- listener that has not failed yet: it returns that error and keeps it, and all packets of those
  -- rounds are in the channel.
  pub listen_broken :
      (n : ℕ)
      → listen f (before ++ read [] (some (broken n)) ∷ after) ≡ (
        finished (some (broken n)),
        record f {
          packet_buffer = f.packet_buffer ++ packets_of before;
          finished_with_error = some (broken n);
        },
      )
  unfolding listen listen_loop
  listen_broken n =
      rw (fresh, listen) (listen_loop-append f before (read [] (some (broken n)) ∷ after) goes_on)

loop-keeps_error :
    (f : Listener) (turns : List Turn) (e : NetError)
    → (listen_loop f turns).0 ≡ finished (some e)
    → (listen_loop f turns).1.finished_with_error ≡ some e
unfolding listen_loop
loop-keeps_error f [] e h = cc
loop-keeps_error f (cancelled ∷ turns) e h = cc
loop-keeps_error f (read [] none ∷ turns) e h = loop-keeps_error f turns e h
loop-keeps_error f (read [] (some deadline_exceeded) ∷ turns) e h = loop-keeps_error f turns e h
loop-keeps_error f (read [] (some (broken n)) ∷ turns) e h = ground arith
loop-keeps_error f (read (b ∷ bs) error ∷ turns) e h =
    let step = loop-bytes f b bs error turns in
    ap (λ r. r.1.finished_with_error) step
    ∙ loop-keeps_error (put_packet f (b ∷ bs)) turns e (sym (ap (λ r. r.0) step) ∙ h)

listen_failed :
    (f : Listener) (turns : List Turn) (e : NetError)
    → f.finished_with_error ≡ some e
    → listen f turns ≡ (finished (some e), f)
unfolding listen
listen_failed f turns e h =
    ap (λ o. elim o [ some x ↦ (finished (some x), f) | none ↦ listen_loop f turns ]) h

listen_fresh :
    (f : Listener) (turns : List Turn)
    → f.finished_with_error ≡ none
    → listen f turns ≡ listen_loop f turns
unfolding listen
listen_fresh f turns h =
    ap (λ o. elim o [ some x ↦ (finished (some x), f) | none ↦ listen_loop f turns ]) h

keeps_error :
    (f : Listener) (turns : List Turn) (e : NetError)
    → (listen f turns).0 ≡ finished (some e)
    → (listen f turns).1.finished_with_error ≡ some e
keeps_error f turns e h = elim (Option-cases f.finished_with_error) [
  | inr (x, old) ↦ let r = listen_failed f turns x old in ground (arith, r, old, h)
  | inl fresh ↦
      let r = listen_fresh f turns fresh in
      ap (λ x. x.1.finished_with_error) r ∙ loop-keeps_error f turns e (sym (ap (λ x. x.0) r) ∙ h)
]

-- Once `Listen` has returned an error, each later call returns the same error and puts no packet in
-- the channel.
pub listen_again :
    (f : Listener) (turns later : List Turn) (e : NetError)
    → (listen f turns).0 ≡ finished (some e)
    → listen (listen f turns).1 later ≡ (finished (some e), (listen f turns).1)
listen_again f turns later e h = listen_failed (listen f turns).1 later e (keeps_error f turns e h)

-- Every packet in the channel has a byte at least, and fits the buffer of 2048 bytes.
abbrev pub IsPacket : List ℕ → Type 0
IsPacket p = (0 < length p) × (length p ≤ 2048)

All-snoc :
    (ps : List (List ℕ)) (p : List ℕ) → All IsPacket ps → IsPacket p → All IsPacket (ps ++ p ∷ [])
All-snoc [] p h k = (k, tt)
All-snoc (q ∷ ps) p h k = (h.0, All-snoc ps p h.1 k)

loop-IsPacket :
    (f : Listener) (turns : List Turn)
    → All IsPacket f.packet_buffer
    → All IsPacket (listen_loop f turns).1.packet_buffer
unfolding listen_loop
loop-IsPacket f [] h = h
loop-IsPacket f (cancelled ∷ turns) h = h
loop-IsPacket f (read [] none ∷ turns) h = loop-IsPacket f turns h
loop-IsPacket f (read [] (some deadline_exceeded) ∷ turns) h = loop-IsPacket f turns h
loop-IsPacket f (read [] (some (broken n)) ∷ turns) h = h
loop-IsPacket f (read (b ∷ bs) error ∷ turns) h =
    subst (λ r. All IsPacket r.1.packet_buffer) (sym (loop-bytes f b bs error turns))
      (loop-IsPacket (put_packet f (b ∷ bs)) turns (
        All-snoc f.packet_buffer (take max_packet_size (b ∷ bs)) h
          (omega (arith, length-take 2048 (b ∷ bs)))))

-- Whatever the connection delivers, every packet that `Listen` puts in the channel has a byte at
-- least and fits the buffer of 2048 bytes, if that held of the packets that were there.
pub listen-IsPacket :
    (f : Listener) (turns : List Turn)
    → All IsPacket f.packet_buffer
    → All IsPacket (listen f turns).1.packet_buffer
listen-IsPacket f turns h = elim (Option-cases f.finished_with_error) [
  | inr (e, old) ↦ subst (λ r. All IsPacket r.1.packet_buffer) (sym (listen_failed f turns e old)) h
  | inl fresh ↦
      subst (λ r. All IsPacket r.1.packet_buffer) (sym (listen_fresh f turns fresh))
        (loop-IsPacket f turns h)
]
