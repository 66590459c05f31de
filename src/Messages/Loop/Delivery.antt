-- ===== src/Messages/Loop/Delivery.antt =====
-- A main loop passes on what is in its queue, in order.
use mathlib.Core.List.{append-nil, append_assoc}
use lvpn.Prelude.{
  ◌<◌, ◌≡◌, refl, sym, ap, ◌∙◌, Bool, true, false, List, [], ◌∷◌, ◌++◌, length, All, arith,
  if◌then◌else◌,
}
use lvpn.Messages.{Message, Process, Routed}
use lvpn.Messages.Loop.{Round, Mail, put_all, take, turn, main_loop}

module _ {D M : Type 0} where
  -- What is put when the messages are passed on one after the other.
  unfoldable pub deliveries :
      (Message D M → Routed) → List (Message D M) → List (Process × Message D M)
  deliveries route [] = []
  deliveries route (msg ∷ msgs) = put_all (route msg).processes msg ++ deliveries route msgs

  -- `done` was put first.
  pub Starts : List (Process × Message D M) → List (Process × Message D M) → Type 0
  Starts done sent = (rest : List (Process × Message D M)) × (sent ≡ done ++ rest)

  deliveries_one :
      (route : Message D M → Routed) (msg : Message D M)
      → deliveries route (msg ∷ []) ≡ put_all (route msg).processes msg
  unfolding deliveries
  deliveries_one route msg = append-nil (put_all (route msg).processes msg)

  deliveries_next :
      (route : Message D M → Routed) (done : List (Process × Message D M)) (msg : Message D M)
      (msgs : List (Message D M))
      → done ++ deliveries route (msg ∷ msgs)
        ≡ (done ++ put_all (route msg).processes msg) ++ deliveries route msgs
  unfolding deliveries
  deliveries_next route done msg msgs =
      sym (append_assoc done (put_all (route msg).processes msg) (deliveries route msgs))

  -- A message that goes nowhere adds nothing.
  pub deliveries_silent :
      (route : Message D M → Routed) (msgs : List (Message D M)) (msg : Message D M)
      → (route msg).processes ≡ []
      → deliveries route (msgs ++ msg ∷ []) ≡ deliveries route msgs
  unfolding deliveries
  deliveries_silent route [] msg h = rw h refl
  deliveries_silent route (m ∷ ms) msg h =
      ap (λ ds. put_all (route m).processes m ++ ds) (deliveries_silent route ms msg h)

  Starts-trans :
      (first done sent : List (Process × Message D M))
      → Starts first done
      → Starts done sent
      → Starts first sent
  unfolding Starts
  Starts-trans first done sent (u, h) (v, k) =
      (u ++ v, k ∙ ap (λ xs. xs ++ v) h ∙ append_assoc first u v)

  Starts-refl : (sent : List (Process × Message D M)) → Starts sent sent
  unfolding Starts
  Starts-refl sent = ([], sym (append-nil sent))

module _ {D M : Type 0} (route : Message D M → Routed)
    (parting : Bool → List (Process × Message D M)) where
  -- What a round leaves was all put after what was there.
  turn-Starts : (r : Round D M) (m : Mail D M) → Starts m.sent (turn route parting r m).0.sent
  unfolding turn take Starts
  turn-Starts r m = go (m.queue ++ r.arriving)
    where
      go :
          (msgs : List (Message D M))
          → Starts m.sent (take route msgs (m.sent ++ parting r.stopped)).0.sent
      go [] = (parting r.stopped, refl)
      go (msg ∷ msgs) = (
        parting r.stopped ++ put_all (route msg).processes msg,
        append_assoc m.sent (parting r.stopped) (put_all (route msg).processes msg),
      )

  main_loop-turn :
      (r : Round D M) (rs : List (Round D M)) (m : Mail D M) (t : Mail D M × Bool)
      → turn route parting r m ≡ t
      → main_loop route parting (r ∷ rs) m
        ≡ (if t.1 then (t.0, true) else main_loop route parting rs t.0)
  unfolding main_loop
  main_loop-turn r rs m t h =
      ap (λ u. if u.1 then (u.0, true) else main_loop route parting rs u.0) h

  -- Both ways to go on keep what was put first.
  branches-Starts :
      (done : List (Process × Message D M)) (t rest : Mail D M × Bool)
      → Starts done t.0.sent
      → Starts done rest.0.sent
      → Starts done (if t.1 then (t.0, true) else rest).0.sent
  branches-Starts done (after, true) rest h k = h
  branches-Starts done (after, false) rest h k = k

  main_loop-Starts :
      (rs : List (Round D M)) (m : Mail D M) → Starts m.sent (main_loop route parting rs m).0.sent
  unfolding main_loop
  main_loop-Starts [] m = Starts-refl m.sent
  main_loop-Starts (r ∷ rs) m =
      let t = turn route parting r m in
      rw (main_loop-turn r rs m t refl) (
        branches-Starts m.sent t (main_loop route parting rs t.0) (turn-Starts r m)
          (Starts-trans m.sent t.0.sent _ (turn-Starts r m) (main_loop-Starts rs t.0)))

  -- A quiet round passes the first message on.
  turn_quiet :
      (msg : Message D M) (msgs : List (Message D M)) (r : Round D M) (m : Mail D M)
      → parting false ≡ []
      → m.queue ≡ msg ∷ msgs
      → r.stopped ≡ false
      → turn route parting r m ≡ (
        record { queue = msgs ++ r.arriving; sent = m.sent ++ put_all (route msg).processes msg },
        (route msg).ends,
      )
  unfolding turn take
  turn_quiet msg msgs r m quiet at alive = rw (at, alive, quiet, append-nil m.sent) refl

  -- With as many rounds as messages stand before it, each message is passed on, in its turn.
  pub main_loop-Delivers :
      (before : List (Message D M)) (msg : Message D M) (after : List (Message D M))
      (rs : List (Round D M)) (m : Mail D M)
      → parting false ≡ []
      → m.queue ≡ before ++ msg ∷ after
      → All (λ x. (route x).ends ≡ false) before
      → All (λ r. r.stopped ≡ false) rs
      → length before < length rs
      → Starts
          (m.sent ++ deliveries route (before ++ msg ∷ []))
          (main_loop route parting rs m).0.sent
  main_loop-Delivers before msg after [] m quiet at known alive long = absurd (omega (arith, long))
  main_loop-Delivers [] msg after (r ∷ rs) m quiet at known alive long =
      let next : Mail D M = record {
        queue = after ++ r.arriving;
        sent = m.sent ++ put_all (route msg).processes msg;
      } in
      rw
        (
          main_loop-turn r rs m _ (turn_quiet msg after r m quiet at alive.0),
          deliveries_one route msg,
        )
        (branches-Starts next.sent (next, (route msg).ends) (main_loop route parting rs next)
          (Starts-refl next.sent) (main_loop-Starts rs next))
  main_loop-Delivers (b ∷ bs) msg after (r ∷ rs) m quiet at known alive long =
      rw
        (
          main_loop-turn r rs m _ (turn_quiet b (bs ++ msg ∷ after) r m quiet at alive.0),
          known.0,
          deliveries_next route m.sent b (bs ++ msg ∷ []),
        )
        (main_loop-Delivers bs msg (after ++ r.arriving) rs
          (record {
            queue = (bs ++ msg ∷ after) ++ r.arriving;
            sent = m.sent ++ put_all (route b).processes b;
          })
          quiet (append_assoc bs (msg ∷ after) r.arriving) known.1 alive.1 (omega (arith, long)))

  -- A message that ends the loop is the last to be passed on.
  pub main_loop-Ends :
      (before : List (Message D M)) (msg : Message D M) (after : List (Message D M))
      (rs : List (Round D M)) (m : Mail D M)
      → parting false ≡ []
      → m.queue ≡ before ++ msg ∷ after
      → All (λ x. (route x).ends ≡ false) before
      → (route msg).ends ≡ true
      → All (λ r. r.stopped ≡ false) rs
      → length before < length rs
      → let (done, ended) = main_loop route parting rs m in
        (ended ≡ true) × (done.sent ≡ m.sent ++ deliveries route (before ++ msg ∷ []))
  main_loop-Ends before msg after [] m quiet at known last alive long = absurd (omega (arith, long))
  main_loop-Ends [] msg after (r ∷ rs) m quiet at known last alive long =
      rw
        (
          main_loop-turn r rs m _ (turn_quiet msg after r m quiet at alive.0),
          deliveries_one route msg,
          last,
        )
        (refl, refl)
  main_loop-Ends (b ∷ bs) msg after (r ∷ rs) m quiet at known last alive long =
      rw
        (
          main_loop-turn r rs m _ (turn_quiet b (bs ++ msg ∷ after) r m quiet at alive.0),
          known.0,
          deliveries_next route m.sent b (bs ++ msg ∷ []),
        )
        (main_loop-Ends bs msg (after ++ r.arriving) rs
          (record {
            queue = (bs ++ msg ∷ after) ++ r.arriving;
            sent = m.sent ++ put_all (route b).processes b;
          })
          quiet (append_assoc bs (msg ∷ after) r.arriving) known.1 last alive.1
          (omega (arith, long)))
