-- ===== src/Queue/Pushes.antt =====
-- internal/util/queue.go: Push while other goroutines use, clear or close the queue.
use xiaozhi_esp32_server_gol.Common.{
  ℕ, ◌≡◌, ◌≢◌, Bool, true, false, List, [], ◌∷◌, ◌++◌, subst, arith, ◌⊎◌,
}
use xiaozhi_esp32_server_gol.Queue.{
  Queue, Sent, sent, closed_chan, ok, failed, retry, queue_closed, send, settle, push_round,
}
use xiaozhi_esp32_server_gol.Queue.Actions.{
  Action, System, run, IsSwapped, Later, run-IsSwapped, run-Later,
}

module _ {ℓ} {A : Type ℓ} where
  -- What a schedule of other goroutines does to the queue.
  abbrev pub others : List (Action A) → System A → Queue A → Queue A
  others l s q = (run l (record s { queue = q })).queue

  send-Later : (late : Bool) (c : ℕ) (v : A) (q : Queue A) → Later q (send late c v q).1
  unfolding send
  send-Later true c v q = ground arith
  send-Later false c v q = ground arith

  send-IsSwapped :
      (late : Bool) (c : ℕ) (v : A) (q : Queue A) → IsSwapped q → IsSwapped (send late c v q).1
  unfolding send
  send-IsSwapped true c v q i = i
  send-IsSwapped false c v q i = record {
    past = λ d h. ground (arith, i.past d);
    now = ground (arith, i.now);
  }

  send-closed :
      (late : Bool) (c : ℕ) (v : A) (q : Queue A)
      → (send late c v q).0 ≡ closed_chan
      → ((q.chans c).shut ≡ true) × ((send late c v q).1 ≡ q)
  unfolding send
  send-closed true c v q h = ground arith
  send-closed false c v q h = ground arith

  send-sent :
      (late : Bool) (c : ℕ) (v : A) (q : Queue A)
      → (send late c v q).0 ≡ sent
      → ((q.chans c).shut ≡ false)
        × (((send late c v q).1.chans c).items ≡ (q.chans c).items ++ v ∷ [])
  unfolding send
  send-sent true c v q h = ground arith
  send-sent false c v q h = ground arith

  settle-closed :
      (r : Sent) (gen : ℕ) (q : Queue A)
      → settle r gen q ≡ failed queue_closed
      → (r ≡ closed_chan) × ((q.closed ≡ true) ⊎ (q.gen ≡ gen))
  unfolding settle
  settle-closed r gen q h = ground arith

  settle-sent : (r : Sent) (gen : ℕ) (q : Queue A) → settle r gen q ≡ ok → r ≡ sent
  unfolding settle
  settle-sent r gen q h = ground arith

  settle-retry :
      (r : Sent) (gen : ℕ) (q : Queue A)
      → settle r gen q ≡ retry
      → (r ≡ closed_chan) × (q.closed ≡ false) × (q.gen ≢ gen)
  unfolding settle
  settle-retry r gen q h = ground arith

  -- A channel that was current and open is found closed only behind a new generation.
  found_closed :
      (q mid : Queue A)
      → IsSwapped mid
      → Later q mid
      → q.closed ≡ false
      → (mid.chans q.cur).shut ≡ true
      → mid.gen ≢ q.gen
  found_closed q mid i l c h e =
      let (same, open_still) = l.same_gen e in
      let now = subst (λ n. (mid.chans n).shut ≡ mid.closed) same i.now in cc

  -- One round of Push among other goroutines, whose actions `before` fall between its first lock and
  -- its send, and `after` between the send and its second lock. It reports the closed queue only
  -- where the queue is closed when it returns. A value that it reports as sent went into the channel
  -- that was current, and open, at the send. It goes round again only if the channel was swapped
  -- before the send and the queue is open when it returns, with another generation.
  pub push_round_lem :
      (late : Bool) (before after : List (Action A)) (s : System A) (v : A)
      → IsSwapped s.queue
      → let mid = others before s s.queue in
        let r = push_round late (others before s) (others after s) v s.queue in
        (r.0 ≡ failed queue_closed → r.1.closed ≡ true)
        × (r.0 ≡ ok → ((mid.chans s.queue.cur).shut ≡ false) × (mid.cur ≡ s.queue.cur))
        × (r.0 ≡ retry → (mid.gen ≢ s.queue.gen) × (r.1.closed ≡ false) × (r.1.gen ≢ s.queue.gen))
  unfolding push_round
  push_round_lem late before after s v i =
      let q = s.queue in
      let mid = others before s q in
      let swapped : IsSwapped mid = run-IsSwapped before s i in
      let moved : Later q mid = run-Later before s in
      let r = send late q.cur v mid in
      let q' = others after s r.1 in
      let later : Later r.1 q' = run-Later after (record s { queue = r.1 }) in
      let shut = send-closed late q.cur v mid in
      (
        λ h. ground (
          arith,
          settle-closed r.0 q.gen q',
          shut,
          moved,
          later,
          found_closed q mid swapped moved,
        ),
        λ h. ground (
          arith,
          settle-sent r.0 q.gen q',
          send-sent late q.cur v mid,
          swapped.past q.cur,
          moved.cur_grows,
        ),
        λ h. (
          ground (arith, settle-retry r.0 q.gen q', shut, found_closed q mid swapped moved),
          ground (arith, settle-retry r.0 q.gen q'),
          ground (arith, settle-retry r.0 q.gen q'),
        ),
      )
