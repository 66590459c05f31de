-- ===== src/Client/Auto/Explained.antt =====
-- What the thread of the automatic connections does (auto_connect of client.py).
use mathlib.Core.List.{append-nil, append_assoc, Mem, mem-cons_self, mem-cons_of_mem}
use lvpn.Prelude.{
  String, ◌≡◌, refl, sym, ap, subst, ◌++◌, ◌∙◌, Bool, true, false, some, List, [], ◌∷◌, not, ◌&&◌,
  ◌||◌, is_some, inl, inr, Bool-cases, arith, str_eq, if◌then◌else◌,
}
use lvpn.Prelude.Text.{split}
use lvpn.Prelude.Dict.{member}
use lvpn.Python.{Result, ok, err, proceed, when, modify}
use lvpn.Money.{Money}
use lvpn.Session.Data.{Session}
use lvpn.Session.World.{Registry}
use lvpn.Sessions.{Filter, no_filter, find}
use lvpn.Client.Connections.{Connection, get_by_sessionid}
use lvpn.Client.Auto.{
  AutoState, AutoOptions, ExitSigns, in_world, ask_proxy, pass_over, connect_or_ask, join_pair,
  join_parts, join_url, join_all, rounds, connect_stored, connect_ready, auto_connect,
}
use lvpn.Client.Auto.Steps.{
  Step, Steps, Steps-trans, passes, resumes, starts, creates, loses, done, further, with_orders,
  active_between, IsFirstQuery, unconnected, Makes, Makes-same, Makes-call,
}
use lvpn.Client.Auto.Asking.{connect_or_ask-Makes}

both_true : (a b : Bool) → (a && b) ≡ true → (a ≡ true) × (b ≡ true)
both_true true true h = (refl, refl)
both_true true false h = absurd (cc h)
both_true false b h = absurd (cc h)

module _ {A : Type 0} ⦃m : Money A⦄ (reg : Registry A) (opts : AutoOptions A)
    (conns : List Connection) where
  join_parts-Makes :
      (url : String) (parts : List String) (v : AutoState A)
      → Mem url (split b',' opts.auto_connect)
      → split b'/' url ≡ parts
      → Makes reg opts conns v (join_parts reg opts conns parts v)
  unfolding join_parts join_pair Makes
  join_parts-Makes url [] v there e = done
  join_parts-Makes url (a ∷ []) v there e = done
  join_parts-Makes url (a ∷ b ∷ c ∷ ps) v there e = done
  join_parts-Makes url (a ∷ b ∷ []) v there e =
      elim (Bool-cases (member a opts.gate_ids && member b opts.space_ids)) [
        | inl h ↦
            (let (gate_known, space_known) =
                both_true (member a opts.gate_ids) (member b opts.space_ids) h in
              rw h (
                Makes-call reg opts conns v v.world (find reg 0 (active_between reg opts conns a b))
                  (connect_or_ask reg opts conns a b)
                  λ found u f.
                    connect_or_ask-Makes reg opts conns a b found v u
                      (url, there, e, gate_known, space_known) f))
        | inr h ↦ rw h done
      ]

  pass_over-Steps :
      (v : AutoState A) (r : Result Bool × AutoState A)
      → Makes reg opts conns v r
      → Steps reg opts conns v (pass_over reg opts conns r).1
  unfolding pass_over Makes
  pass_over-Steps v (ok more, w) h = h
  pass_over-Steps v (err e, w) h = h

  join_url-Steps :
      (url : String) (v : AutoState A)
      → Mem url (split b',' opts.auto_connect)
      → Steps reg opts conns v (join_url reg opts conns url v).1
  unfolding join_url
  join_url-Steps url v there = elim (Bool-cases (str_eq url "active" || str_eq url "paid")) [
    | inl h ↦ rw h done
    | inr h ↦ rw h (pass_over-Steps v _ (join_parts-Makes url (split b'/' url) v there refl))
  ]

  join_all-Steps :
      (urls : List String) (v : AutoState A)
      → ((url : String) → Mem url urls → Mem url (split b',' opts.auto_connect))
      → Steps reg opts conns v (join_all reg opts conns urls v).1
  unfolding join_all
  join_all-Steps [] v there = done
  join_all-Steps (url ∷ urls) v there = elim (Bool-cases (join_url reg opts conns url v).0) [
    | inl h ↦ rw h (
        Steps-trans reg opts conns (join_url-Steps url v (there url mem-cons_self)) (
          join_all-Steps urls (join_url reg opts conns url v).1
            λ u h. there u (mem-cons_of_mem url h)))
    | inr h ↦ rw h (join_url-Steps url v (there url mem-cons_self))
  ]

  -- Whichever way a round ends.
  ends-Steps :
      (a b c : Bool) {v w u : AutoState A}
      → Steps reg opts conns v w
      → Steps reg opts conns w u
      → Steps reg opts conns v (if a then v else if b then w else if c then w else u)
  ends-Steps true b c h k = done
  ends-Steps false true c h k = h
  ends-Steps false false true h k = h
  ends-Steps false false false h k = Steps-trans reg opts conns h k

  rounds-Steps :
      (signs : List ExitSigns) (v : AutoState A)
      → Steps reg opts conns v (rounds reg opts conns signs v)
  unfolding rounds
  rounds-Steps [] v = done
  rounds-Steps (now ∷ later) v =
      ends-Steps now.at_start _ _ (join_all-Steps (split b',' opts.auto_connect) v λ u h. h)
        (rounds-Steps later (join_all reg opts conns (split b',' opts.auto_connect) v).1)

  unconnected_next :
      (s : Session A) (ss : List (Session A)) (v : AutoState A) (b : Bool)
      → not (is_some (get_by_sessionid s.sessionid conns)) ≡ b
      → (if b then v.connects ++ s.sessionid ∷ [] else v.connects) ++ unconnected reg opts conns ss
        ≡ v.connects ++ unconnected reg opts conns (s ∷ ss)
  unfolding unconnected
  unconnected_next s ss v true h =
      rw h (append_assoc v.connects (s.sessionid ∷ []) (unconnected reg opts conns ss))
  unconnected_next s ss v false h = rw h refl

  connect_stored_lem :
      (found : List (Session A)) (v : AutoState A)
      → connect_stored reg opts conns found v
        ≡ (ok tt, record v { connects = v.connects ++ unconnected reg opts conns found })
  unfolding connect_stored unconnected ask_proxy
  connect_stored_lem [] v =
      ap (λ l. (ok tt, record v { connects = l })) (sym (append-nil v.connects))
  connect_stored_lem (s ∷ ss) v =
      go (not (is_some (get_by_sessionid s.sessionid conns))) refl (λ w. connect_stored_lem ss w)
    where
      go :
          (b : Bool)
          → not (is_some (get_by_sessionid s.sessionid conns)) ≡ b
          → ((w : AutoState A)
              → connect_stored reg opts conns ss w
                ≡ (ok tt, record w { connects = w.connects ++ unconnected reg opts conns ss }))
          → proceed (when b (ask_proxy s) v) (λ _. connect_stored reg opts conns ss)
            ≡ (ok tt, record v { connects = v.connects ++ unconnected reg opts conns (s ∷ ss) })
      go true h rest =
          rest (record v { connects = v.connects ++ s.sessionid ∷ [] })
          ∙ ap (λ l. (ok tt, record v { connects = l })) (unconnected_next s ss v true h)
      go false h rest =
          rest v ∙ ap (λ l. (ok tt, record v { connects = l })) (unconnected_next s ss v false h)

  first_query-Makes :
      (f : Filter) (v : AutoState A)
      → IsFirstQuery reg opts conns f
      → Makes reg opts conns v (proceed (in_world (find reg 0 f) v) (connect_stored reg opts conns))
  unfolding Makes
  first_query-Makes f v first =
      Makes-call reg opts conns v v.world (find reg 0 f) (connect_stored reg opts conns)
        λ found u e.
          subst (Makes reg opts conns v) (sym (connect_stored_lem found (record v { world = u })))
            (further done (resumes f found u first e))

  connect_ready-Makes :
      (v : AutoState A)
      → Makes reg opts conns v (connect_ready reg opts conns (split b',' opts.auto_connect) v)
  unfolding connect_ready
  connect_ready-Makes v = elim (Bool-cases (member "paid" (split b',' opts.auto_connect))) [
    | inl h ↦ rw h (
        first_query-Makes (record no_filter { paid = true; notfree = true; noparent = true }) v
          (inl (h, refl)))
    | inr h ↦ elim (Bool-cases (member "active" (split b',' opts.auto_connect))) [
      | inl k ↦
          rw (h, k)
            (first_query-Makes (record no_filter { active = true; noparent = true }) v
              (inr (h, k, refl)))
      | inr k ↦ rw (h, k) (Makes-same reg opts conns (ok tt) v)
    ]
  ]

  pub auto_connect-Steps :
      (signs : List ExitSigns) (v : AutoState A)
      → Steps reg opts conns v (auto_connect reg opts conns signs v).1
  unfolding auto_connect Makes
  auto_connect-Steps signs v =
      go (connect_ready reg opts conns (split b',' opts.auto_connect) v) (connect_ready-Makes v)
    where
      go :
          (r : Result (Unit {0}) × AutoState A)
          → Makes reg opts conns v r
          → Steps reg opts conns v (proceed r (λ _. modify (rounds reg opts conns signs))).1
      go (ok _, w) h = Steps-trans reg opts conns h (rounds-Steps signs w)
      go (err e, w) h = h

-- With payments turned off no step orders one.
module _ {A : Type 0} ⦃m : Money A⦄ (reg : Registry A) (opts : AutoOptions A)
    (conns : List Connection) where
  one_free :
      {v w : AutoState A}
      → reg.cfg.auto_pay_days ≡ some 0
      → Step reg opts conns v w
      → w.orders ≡ v.orders
  unfolding with_orders
  one_free off (passes u) = refl
  one_free off (resumes f found u first e) = refl
  one_free off (starts gateid spaceid s ss u wanted e) = refl
  one_free off (creates auto s w u given set h) = ground arith
  one_free off (loses auto s e w u given set h) = ground arith

  all_free :
      {v w : AutoState A}
      → reg.cfg.auto_pay_days ≡ some 0
      → Steps reg opts conns v w
      → w.orders ≡ v.orders
  all_free off done = refl
  all_free off (further h k) = one_free off k ∙ all_free off h

  -- If the days that are paid for automatically are set to 0, the thread never orders a payment.
  pub auto_connect_free :
      (signs : List ExitSigns) (v : AutoState A)
      → reg.cfg.auto_pay_days ≡ some 0
      → (auto_connect reg opts conns signs v).1.orders ≡ v.orders
  auto_connect_free signs v off = all_free off (auto_connect-Steps reg opts conns signs v)
