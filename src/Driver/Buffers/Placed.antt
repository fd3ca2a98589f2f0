-- ===== src/Driver/Buffers/Placed.antt =====
-- The queued segments of a socket as a list: how they lie in the buffer, and what a placement and a
-- release do to that.
use wiznet_driver.Base.{ℕ, ◌+◌, ◌≡◌, ◌<◌, ◌≤◌, ◌⊎◌, inl, inr, sym, ap, ◌∙◌, arith}
use wiznet_driver.Base.{List, [], ◌∷◌, ◌++◌, append-nil, append_assoc}
use wiznet_driver.Queue.Spec.{tail}
use wiznet_driver.Driver.{Segment}
use wiznet_driver.Driver.Buffers.Layout.{IsChain, last_end}

-- No segment; or first those of `f ∷ a`, then, from the buffer's start on and before `f`, those of
-- `b`.
pub data IsSpread (buf_len : ℕ) (gs : List Segment) : Type 0 where
  nothing_queued : gs ≡ [] → IsSpread buf_len gs
  round_from :
      (f : Segment) (a b : List Segment)
      → gs ≡ (f ∷ a) ++ b
      → IsChain 0 (f ∷ a) buf_len
      → IsChain 0 b f.start_index
      → IsSpread buf_len gs

pub IsChain-weaken :
    (gs : List Segment) (lo hi hi' : ℕ) → hi ≤ hi' → IsChain lo gs hi → IsChain lo gs hi'
IsChain-weaken [] lo hi hi' h c = omega arith
IsChain-weaken (g ∷ gs) lo hi hi' h c = (c.0, c.1, IsChain-weaken gs g.end_index hi hi' h c.2)

-- A segment behind the last one.
pub IsChain-snoc :
    (gs : List Segment) (lo hi hi' : ℕ) (g : Segment)
    → IsChain lo gs hi
    → last_end lo gs ≤ g.start_index
    → g.start_index < g.end_index
    → g.end_index ≤ hi'
    → IsChain lo (gs ++ (g ∷ [])) hi'
IsChain-snoc [] lo hi hi' g c behind proper fits = (behind, proper, fits)
IsChain-snoc (x ∷ gs) lo hi hi' g c behind proper fits =
    (c.0, c.1, IsChain-snoc gs x.end_index hi hi' g c.2 behind proper fits)

-- Where the next segment may go: behind the last one, or at the buffer's start.
abbrev pub IsRoom : ℕ → Segment → List Segment → List Segment → ℕ → ℕ → Type 0
IsRoom buf_len f a [] i len =
    ((i ≡ last_end f.end_index a) × (last_end f.end_index a + len ≤ buf_len))
    ⊎ ((i ≡ 0) × (len ≤ f.start_index))
IsRoom buf_len f a (g ∷ b) i len =
    (i ≡ last_end 0 (g ∷ b)) × (last_end 0 (g ∷ b) + len ≤ f.start_index)

module _ (buf_len : ℕ) where
  -- The segment at the front goes.
  released-IsSpread :
      (gs : List Segment) (f : Segment) (a b : List Segment)
      → gs ≡ a ++ b
      → IsChain 0 (f ∷ a) buf_len
      → IsChain 0 b f.start_index
      → IsSpread buf_len gs
  released-IsSpread gs f (x ∷ a) b e front wrapped =
      round_from x a b e (omega arith, front.2.1, front.2.2)
        (IsChain-weaken b 0 f.start_index x.start_index (omega arith) wrapped)
  released-IsSpread gs f [] [] e front wrapped = nothing_queued e
  released-IsSpread gs f [] (y ∷ b) e front wrapped =
      round_from y b [] (e ∙ sym (append-nil (y ∷ b)))
        (IsChain-weaken (y ∷ b) 0 f.start_index buf_len (omega arith) wrapped) (omega arith)

  pub tail-IsSpread : (gs : List Segment) → IsSpread buf_len gs → IsSpread buf_len (tail gs)
  tail-IsSpread gs (nothing_queued e) = nothing_queued (ap tail e)
  tail-IsSpread gs (round_from f a b e front wrapped) =
      released-IsSpread (tail gs) f a b (ap tail e) front wrapped

  -- A segment comes to the back.
  pub snoc-IsSpread :
      (gs : List Segment) (f : Segment) (a b : List Segment) (g : Segment) (len : ℕ)
      → gs ≡ (f ∷ a) ++ b
      → IsChain 0 (f ∷ a) buf_len
      → IsChain 0 b f.start_index
      → g.end_index ≡ g.start_index + len
      → 0 < len
      → IsRoom buf_len f a b g.start_index len
      → IsSpread buf_len (gs ++ (g ∷ []))
  snoc-IsSpread gs f a [] g len e front wrapped ends pos (inl h) =
      round_from f (a ++ (g ∷ [])) []
        (ap (λ l. l ++ (g ∷ [])) (e ∙ append-nil (f ∷ a)) ∙ sym (append-nil _))
        (IsChain-snoc (f ∷ a) 0 buf_len buf_len g front (omega arith) (omega arith) (omega arith))
        (omega arith)
  snoc-IsSpread gs f a [] g len e front wrapped ends pos (inr h) =
      round_from f a (g ∷ []) (ap (λ l. l ++ (g ∷ [])) (e ∙ append-nil (f ∷ a))) front (omega arith)
  snoc-IsSpread gs f a (y ∷ b) g len e front wrapped ends pos room =
      round_from f a ((y ∷ b) ++ (g ∷ []))
        (ap (λ l. l ++ (g ∷ [])) e ∙ append_assoc (f ∷ a) (y ∷ b) (g ∷ [])) front
        (IsChain-snoc (y ∷ b) 0 f.start_index f.start_index g wrapped (omega arith) (omega arith)
          (omega arith))
