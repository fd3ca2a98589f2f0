-- ===== src/Driver/Hardware.antt =====
-- Src/w5500.cpp: setWiznetHardware. A handle of the HAL is a number, and a null pointer is none.
use wiznet_driver.Base.{
  ℕ, ◌-◌, ◌*◌, ◌/◌, ◌≡◌, ◌⊎◌, inl, inr, refl, Bool, true, false, Option, none, some,
}
use wiznet_driver.Base.{List, [], ◌∷◌}
use wiznet_driver.Net.{SockResult, sock_ok, sockerr_invalid_param}

-- The globals wiznet_hspi, wiznet_cs_port and wiznet_cs_pin.
pub record Hardware : Type 0 where
  pub hspi : Option ℕ
  pub cs_port : Option ℕ
  pub cs_pin : ℕ

-- A register of a timer that the function writes.
pub data TimerRegister : Type 0 where
  psc arr cnt egr : TimerRegister

-- What the function does to the processor: it raises a pin, writes a register of a timer, and
-- starts the timer with its interrupt.
pub data HardwareStep : Type 0 where
  set_pin : ℕ → ℕ → HardwareStep
  write_timer : ℕ → TimerRegister → ℕ → HardwareStep
  start_timer : ℕ → HardwareStep

-- WIZNET_TIM_CLK and WIZNET_POLL_RATE
abbrev wiznet_tim_clk : ℕ
wiznet_tim_clk = 275000000

abbrev wiznet_poll_rate : ℕ
wiznet_poll_rate = 50

-- `tim_egr_ug` is the processor's TIM_EGR_UG.
unfoldable pub set_wiznet_hardware :
    ℕ → Option ℕ → Option ℕ → ℕ → Option ℕ → Hardware → SockResult × (Hardware × List HardwareStep)
set_wiznet_hardware tim_egr_ug (some hspi) (some cs_port) cs_pin (some htim) h = (
  sock_ok,
  (
    record { hspi = some hspi; cs_port = some cs_port; cs_pin = cs_pin },
    set_pin cs_port cs_pin
        ∷ write_timer htim psc (55000 - 1)
        ∷ write_timer htim arr (wiznet_tim_clk / 55000 / wiznet_poll_rate - 1)
        ∷ write_timer htim cnt 0
        ∷ write_timer htim egr tim_egr_ug
        ∷ start_timer htim
        ∷ [],
  ),
)
set_wiznet_hardware tim_egr_ug _ _ cs_pin _ h = (sockerr_invalid_param, (h, []))

-- The test of initWizchip that the hardware is configured.
abbrev pub is_configured : Hardware → Bool
is_configured h = elim h.hspi [
  | none ↦ false
  | some _ ↦ elim h.cs_port [ none ↦ false | some _ ↦ true ]
]

-- Where setWiznetHardware returns SOCK_OK, initWizchip finds the hardware configured; otherwise
-- nothing has changed.
set_wiznet_hardware-is_configured :
    (tim_egr_ug cs_pin : ℕ) (hspi cs_port htim : Option ℕ) (h : Hardware)
    → let r = set_wiznet_hardware tim_egr_ug hspi cs_port cs_pin htim h in
      ((r.0 ≡ sock_ok) × (is_configured r.1.0 ≡ true))
      ⊎ ((r.0 ≡ sockerr_invalid_param) × (r.1 ≡ (h, [])))
unfolding set_wiznet_hardware
set_wiznet_hardware-is_configured bit pin none none none h = inr (refl, refl)
set_wiznet_hardware-is_configured bit pin none none (some t) h = inr (refl, refl)
set_wiznet_hardware-is_configured bit pin none (some c) none h = inr (refl, refl)
set_wiznet_hardware-is_configured bit pin none (some c) (some t) h = inr (refl, refl)
set_wiznet_hardware-is_configured bit pin (some s) none none h = inr (refl, refl)
set_wiznet_hardware-is_configured bit pin (some s) none (some t) h = inr (refl, refl)
set_wiznet_hardware-is_configured bit pin (some s) (some c) none h = inr (refl, refl)
set_wiznet_hardware-is_configured bit pin (some s) (some c) (some t) h = inl (refl, refl)

-- The timer counts 100 steps of 55000 cycles, which is 50 times a second.
timer_run : 55000 * (wiznet_tim_clk / 55000 / wiznet_poll_rate) * 50 ≡ wiznet_tim_clk
timer_run = refl
