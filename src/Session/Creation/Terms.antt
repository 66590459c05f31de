-- ===== src/Session/Creation/Terms.antt =====
-- The terms of a new session.
use lvpn.Prelude.{ℕ, suc, String, ◌≡◌, false, [], some, arith}
use lvpn.Python.{Result, ok, err}
use lvpn.Money.{Money}
use lvpn.Vdp.Objects.{Gate, Space}
use lvpn.Session.Data.{Session, amount, daily_price}
use lvpn.Session.World.{World, Registry}
use lvpn.Session.Contributions.{add_contributions}
use lvpn.Session.Creation.{generate}

module _ {A : Type 0} ⦃m : Money A⦄ (reg : Registry A) (gateid spaceid : String) (w : World A) where
  -- A session that is not free, before any payment.
  abbrev pub Unpaid : Gate A → Space A → ℕ → Result (Session A) × World A → Type 0
  Unpaid gate space days (ok s, w') =
      (s.days ≡ days)
      × (s.price ≡ amount (m.times (daily_price space gate) days))
      × (s.gateid ≡ gateid)
      × (s.spaceid ≡ spaceid)
      × (s.payments ≡ [])
      × (s.paid ≡ false)
      × (s.activated ≡ 0)
      × (w'.rows ≡ w.rows)
  Unpaid gate space days (err _, w') = ⊥

  -- With a known gate and space whose daily price is not zero, some days and no contributions,
  -- `generate` succeeds: the price is the daily price times the days, nothing is paid or
  -- activated, and nothing is stored.
  pub generate-Unpaid :
      (gate : Gate A) (space : Space A) (n : ℕ)
      → reg.get_gate gateid ≡ some gate
      → reg.get_space spaceid ≡ some space
      → m.is_zero (daily_price space gate) ≡ false
      → reg.cfg.contributions ≡ []
      → Unpaid gate space (suc n) (generate reg gateid spaceid (some (suc n)) w)
  unfolding generate add_contributions
  generate-Unpaid gate space n found_gate found_space priced none_set = ground arith
