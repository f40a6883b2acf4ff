-- ===== src/Streaming/Bronze/Turns.antt =====
-- A turn of the loop keeps the rows of an entity.
use modern_data_platform.Prelude.{
  ℕ, suc, ◌+◌, ◌≤◌, String, Bool, true, false, Option, none, some, List, [], ◌∷◌, ◌++◌, ◌≡◌, refl,
  ◌∙◌, length, concat, Sub, arith, ltb, if◌then◌else◌,
}
use modern_data_platform.Processing.Outcome.{Exn, Reply, answer, failure}
use modern_data_platform.Streaming.Bronze.{
  Backend, Slot, Phase, max_batch_size, is_due, skip_poll, remaining, topic_for, consumer_group_id,
  polled, consume, poll, submit, poll_and_submit, turn, turn_at,
}
use modern_data_platform.Streaming.Bronze.Growth.{
  Grown, Grown-more, Grown-at_most, Grown-buffer_messages, with_counters, Grown-with_counters,
}
use modern_data_platform.Streaming.Bronze.Kept.{Documented, Kept, Answered, stored_at}

-- A slot without a flush that is kept, and has room for `k` rows more.
record Open (lost : Exn → Bool) (k : ℕ) (s : Slot) : Type 0 where
  no_flight : s.flight ≡ none
  size : s.buffer.max_size ≡ max_batch_size
  fits : length s.buffer.records + k ≤ max_batch_size
  accounts : s.accepted ≡ concat s.settled ++ s.buffer.records
  in_table : Sub s.settled s.written

Open-Grown :
    (lost : Exn → Bool) (k : ℕ) (s s' : Slot) → Open lost k s → Grown k s s' → Open lost 0 s'
Open-Grown lost k s s' h g = record {
  no_flight = g.same_flight ∙ h.no_flight;
  size = g.same_size ∙ h.size;
  fits = omega (arith, g.grows, h.fits);
  accounts = rw g.same_settled (g.accounted (concat s.settled) h.accounts);
  in_table = rw g.same_settled (rw g.same_written h.in_table);
}

Kept-of_Open : (lost : Exn → Bool) (s : Slot) → Open lost 0 s → Kept lost s
Kept-of_Open lost s h = record {
  size = h.size;
  fits = omega (arith, h.fits);
  accounts = h.accounts;
  in_table = rw h.no_flight h.in_table;
}

module _ {W B : Type 0} (x : Backend W B) (lost : Exn → Bool) (laws : Documented x lost) where
  Grown-polled :
      (values : List B) (s : Slot) (w : W) → Grown (length values) s (polled x values s w).0
  unfolding polled
  Grown-polled [] s w =
      Grown-with_counters s (s.buffer.consecutive_empty_polls + 1) s.buffer.rounds_since_last_poll
  Grown-polled (value ∷ values) s w =
      Grown-at_most (0 + suc (length values)) (suc (length values)) (omega arith) (
        Grown-more 0 (suc (length values)) (Grown-with_counters s 0 s.buffer.rounds_since_last_poll)
          (Grown-buffer_messages x (value ∷ values)
            (with_counters s 0 s.buffer.rounds_since_last_poll) w))

  Open-consume :
      (entity : String) (n : ℕ) (s : Slot) (w : W)
      → Open lost n s
      → Answered (Open lost 0) (consume x entity n s w).0
  unfolding consume
  Open-consume entity n s w h =
      by_reply (x.consume_batch (topic_for entity) consumer_group_id n w).0
        (laws.polls_at_most (topic_for entity) consumer_group_id n w)
    where
      w' : W
      w' = (x.consume_batch (topic_for entity) consumer_group_id n w).1

      by_reply :
          (r : Reply (List B))
          → ((messages : List B) → r ≡ answer messages → length messages ≤ n)
          → let p : Reply Slot × W = elim r [
            | failure e ↦ (failure e, w')
            | answer messages ↦ let (s', w'') = polled x messages s w' in (answer s', w'')
          ] in
            Answered (Open lost 0) p.0
      by_reply (failure e) most = tt
      by_reply (answer messages) most =
          Open-Grown lost n s _ h
            (Grown-at_most (length messages) n (most messages refl) (Grown-polled messages s w'))

  Open-less : (k : ℕ) (s : Slot) → Open lost k s → Open lost 0 s
  Open-less k s h = record {
    no_flight = h.no_flight;
    size = h.size;
    fits = omega (arith, h.fits);
    accounts = h.accounts;
    in_table = h.in_table;
  }

  Open-with_counters :
      (k : ℕ) (s : Slot) (empty rounds : ℕ)
      → Open lost k s
      → Open lost k (with_counters s empty rounds)
  Open-with_counters k s empty rounds h = record {
    no_flight = h.no_flight;
    size = h.size;
    fits = h.fits;
    accounts = h.accounts;
    in_table = h.in_table;
  }

  Open-remaining :
      (entity : String) (s : Slot) → Open lost 0 s → Open lost (remaining entity s.buffer) s
  unfolding remaining
  Open-remaining entity s h = record {
    no_flight = h.no_flight;
    size = h.size;
    fits = omega (arith, h.fits, h.size);
    accounts = h.accounts;
    in_table = h.in_table;
  }

  Open-poll :
      (entity : String) (s : Slot) (w : W)
      → Open lost 0 s
      → Answered (Open lost 0) (poll x entity s w).0
  unfolding poll
  Open-poll entity s w h = by_gate (skip_poll s.buffer) (ltb 0 (remaining entity s.buffer))
    where
      empty : ℕ
      empty = s.buffer.consecutive_empty_polls

      ready : Slot
      ready = with_counters s empty 0

      waiting : Slot
      waiting = with_counters s empty (s.buffer.rounds_since_last_poll + 1)

      by_gate :
          (skips has_room : Bool)
          → let p : Reply Slot × W =
              if skips
              then (answer waiting, w)
              else if has_room
              then consume x entity (remaining entity s.buffer) ready w
              else (answer ready, w) in
            Answered (Open lost 0) p.0
      by_gate true room = Open-with_counters 0 s empty _ h
      by_gate false false = Open-with_counters 0 s empty 0 h
      by_gate false true =
          Open-consume entity (remaining entity s.buffer) ready w
            (Open-with_counters (remaining entity s.buffer) s empty 0 (Open-remaining entity s h))

  Kept-submit : (s : Slot) (w : W) → Open lost 0 s → Kept lost (submit x s w).0
  unfolding submit
  Kept-submit s w h = by_due (is_due s.buffer (x.monotonic w).0)
    where
      by_due :
          (due : Bool) → Kept lost (if due then record s { flight = some Phase.writing } else s)
      by_due false = Kept-of_Open lost s h
      by_due true = record {
        size = h.size;
        fits = omega (arith, h.fits);
        accounts = h.accounts;
        in_table = h.in_table;
      }

  Kept-poll_and_submit :
      (entity : String) (s : Slot) (w : W)
      → Open lost 0 s
      → Answered (Kept lost) (poll_and_submit x entity s w).0
  unfolding poll_and_submit
  Kept-poll_and_submit entity s w h = by_reply (poll x entity s w).0 (Open-poll entity s w h)
    where
      w' : W
      w' = (poll x entity s w).1

      by_reply :
          (r : Reply Slot)
          → Answered (Open lost 0) r
          → let p : Reply Slot × W = elim r [
            | failure e ↦ (failure e, w')
            | answer s' ↦ let (s'', w'') = submit x s' w' in (answer s'', w'')
          ] in
            Answered (Kept lost) p.0
      by_reply (failure e) g = tt
      by_reply (answer s') g = Kept-submit s' w' g

  Kept-turn_at :
      (entity : String) (flight : Option Phase) (s : Slot) (w : W)
      → s.flight ≡ flight
      → Kept lost s
      → Answered (Kept lost) (turn_at x entity flight s w).0
  Kept-turn_at entity none s w e h = Kept-poll_and_submit entity s w (record {
    no_flight = e;
    size = h.size;
    fits = omega (arith, h.fits);
    accounts = h.accounts;
    in_table = stored_at lost s none e h;
  })
  Kept-turn_at entity (some Phase.ended) s w e h =
      Kept-poll_and_submit entity (record s { flight = none }) w
        (record {
          no_flight = refl;
          size = h.size;
          fits = omega (arith, h.fits);
          accounts = h.accounts;
          in_table = stored_at lost s (some Phase.ended) e h;
        })
  Kept-turn_at entity (some (Phase.crashed e')) s w e h = tt
  Kept-turn_at entity (some _) s w e h = h

  -- A turn of the loop keeps a slot, if it does not leave the loop.
  pub Kept-turn :
      (entity : String) (s : Slot) (w : W)
      → Kept lost s
      → Answered (Kept lost) (turn x entity s w).0
  unfolding turn
  Kept-turn entity s w h = Kept-turn_at entity s.flight s w refl h
