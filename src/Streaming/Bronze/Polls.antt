-- ===== src/Streaming/Bronze/Polls.antt =====
-- A buffer never gets stuck, and an idle entity is polled again.
use modern_data_platform.Prelude.{
  ◌+◌, ℕ, zero, suc, ◌≤◌, ◌<◌, String, String_Eq, true, false, Option, none, some, ◌≡◌, ◌⊎◌, inl,
  inr, refl, arith, ltb, Bool-cases, ap,
}
use mathlib.Core.Path.{subst}
use modern_data_platform.Processing.Outcome.{Exn, Reply, answer, failure}
use modern_data_platform.Streaming.Bronze.{
  poll, skip_poll, Backend, EntityBuffer, Slot, Phase, max_poll_batch_size, is_due, clear, submit,
  remaining, turn, turn_at, poll_and_submit, consume, topic_for, consumer_group_id,
}

poll_size_pos : (entity : String) → 0 < max_poll_batch_size entity
poll_size_pos entity = ground arith

-- The poll gate never stays shut: while the flush threshold of a buffer is positive, at each moment
-- the buffer has room for a poll or is due for a flush; and once it is cleared, as it is after a
-- lost assignment, it has room for one.
pub remaining-is_due :
    (entity : String) (b : EntityBuffer) (now : ℕ)
    → 0 < b.max_size
    → ((0 < remaining entity b) ⊎ (is_due b now ≡ true)) × (0 < remaining entity (clear b))
unfolding remaining is_due clear
remaining-is_due entity b now pos = ground (arith, poll_size_pos entity)

-- No flush of the entity is running or has crashed.
abbrev pub IsFree : Option Phase → Type 0
IsFree none = Unit
IsFree (some Phase.ended) = Unit
IsFree _ = ⊥

abbrev pub IfAnswer : (Slot → Type 0) → Reply Slot → Type 0
IfAnswer P (answer s) = P s
IfAnswer P (failure e) = Unit

module _ {W B : Type 0} (x : Backend W B) (entity : String) where
  -- `n` turns in a row, up to one that raises
  abbrev pub run_turns : ℕ → Slot → W → Reply Slot × W
  run_turns zero s w = (answer s, w)
  run_turns (suc n) s w =
      let (r, w') = turn x entity s w in
      elim r [ answer s' ↦ run_turns n s' w' | failure e ↦ (failure e, w') ]

  -- Before each of these turns no flush is running, and the buffer has room.
  abbrev pub Open : ℕ → Slot → W → Type 0
  Open zero s w = Unit
  Open (suc n) s w =
      let (r, w') = turn x entity s w in
      IsFree s.flight × (0 < remaining entity s.buffer) × IfAnswer (λ s'. Open n s' w') r

  submit-buffer : (s : Slot) (w : W) → (submit x s w).0.buffer ≡ s.buffer
  unfolding submit
  submit-buffer s w = elim (Bool-cases (is_due s.buffer (x.monotonic w).0)) [
    | inl due ↦ rw due refl
    | inr early ↦ rw early refl
  ]

  -- A turn that leaves the poll out is counted.
  abbrev Skipped : Slot → Reply Slot → Type 0
  Skipped s r =
      (t : Slot) × (r ≡ answer t)
      × (t.buffer
          ≡ record s.buffer { rounds_since_last_poll = s.buffer.rounds_since_last_poll + 1 })

  abbrev waiting : Slot → Slot
  waiting s = record s {
    buffer = record s.buffer { rounds_since_last_poll = s.buffer.rounds_since_last_poll + 1 };
  }

  poll_left_out :
      (s : Slot) (w : W) → skip_poll s.buffer ≡ true → poll x entity s w ≡ (answer (waiting s), w)
  unfolding poll
  poll_left_out s w h = rw h refl

  poll_skips :
      (s : Slot) (w : W) → skip_poll s.buffer ≡ true → Skipped s (poll_and_submit x entity s w).0
  unfolding poll_and_submit
  poll_skips s w h =
      rw (poll_and_submit, poll_left_out s w h)
        (
          (submit x (waiting s) (poll x entity s w).1).0,
          refl,
          submit-buffer (waiting s) (poll x entity s w).1,
        )

  turn_skips :
      (s : Slot) (w : W) (flight : Option Phase)
      → IsFree flight
      → skip_poll s.buffer ≡ true
      → Skipped s (turn_at x entity flight s w).0
  turn_skips s w none free h = poll_skips s w h
  turn_skips s w (some Phase.ended) free h = poll_skips (record s { flight = none }) w h
  turn_skips s w (some _) free h = absurd free

  rounds_left : (b : EntityBuffer) → skip_poll b ≡ true → b.rounds_since_last_poll < 4
  unfolding skip_poll
  rounds_left b h = ground (arith, h)

  module _ (e : Exn)
      (raises : (topic group : String) (n : ℕ) (w : W)
        → (x.consume_batch topic group n w).0 ≡ failure e) where
    consume_raises : (n : ℕ) (s : Slot) (w : W) → (consume x entity n s w).0 ≡ failure e
    unfolding consume
    consume_raises n s w = rw (consume, raises (topic_for entity) consumer_group_id n w) refl

    poll_fails :
        (s : Slot) (w : W)
        → skip_poll s.buffer ≡ false
        → 0 < remaining entity s.buffer
        → (poll x entity s w).0 ≡ failure e
    unfolding poll
    poll_fails s w h room =
        let n = remaining entity s.buffer in
        let roomy : ltb 0 n ≡ true = ground (arith, room) in
        rw (h, roomy)
          (consume_raises n (record s { buffer = record s.buffer { rounds_since_last_poll = 0 } })
            w)

    poll_raises :
        (s : Slot) (w : W)
        → skip_poll s.buffer ≡ false
        → 0 < remaining entity s.buffer
        → (poll_and_submit x entity s w).0 ≡ failure e
    unfolding poll_and_submit
    poll_raises s w h room = rw (poll_and_submit, poll_fails s w h room) refl

    turn_raises :
        (s : Slot) (w : W) (flight : Option Phase)
        → IsFree flight
        → skip_poll s.buffer ≡ false
        → 0 < remaining entity s.buffer
        → (turn_at x entity flight s w).0 ≡ failure e
    turn_raises s w none free h room = poll_raises s w h room
    turn_raises s w (some Phase.ended) free h room =
        poll_raises (record s { flight = none }) w h room
    turn_raises s w (some _) free h room = absurd free

    turns_raise :
        (n : ℕ) (s : Slot) (w : W)
        → Open n s w
        → 4 < s.buffer.rounds_since_last_poll + n
        → 1 ≤ n
        → (run_turns n s w).0 ≡ failure e
    unfolding turn
    turns_raise zero s w h enough pos = absurd (omega (arith, pos))
    turns_raise (suc n) s w h enough pos = elim (Bool-cases (skip_poll s.buffer)) [
      | inr polls ↦ rw (run_turns, turn_raises s w s.flight h.0 polls h.1) refl
      | inl skips ↦
          let (t, returns, counted) = turn_skips s w s.flight h.0 skips in
          let rounds = ap (λ b. b.rounds_since_last_poll) counted in
          let left = rounds_left s.buffer skips in
          rw (run_turns, returns)
            (turns_raise n t (turn x entity s w).1
              (subst (IfAnswer (λ s'. Open n s' (turn x entity s w).1)) returns h.2)
              (omega (arith, enough, rounds)) (omega (arith, enough, left)))
    ]

    -- An idle entity is not starved: of five turns in a row before which no flush is running and the
    -- buffer has room, one calls `consume_batch`. That is, if that call always raises, one of these
    -- turns raises its exception.
    pub idle_polls : (s : Slot) (w : W) → Open 5 s w → (run_turns 5 s w).0 ≡ failure e
    idle_polls s w h = turns_raise 5 s w h (omega arith) (omega arith)
