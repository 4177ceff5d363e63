-- ===== src/Deque/Invariant/Frame.antt =====
-- include/chase_lev_deque.hpp: when a change of shared memory leaves true what thieves know.
use lock_free_work_stealing.Base.{ℕ, ◌≤◌, ◌<◌, ◌≡◌, sym, ◌∙◌, subst, arith}
use lock_free_work_stealing.Deque.Array.{get}
use lock_free_work_stealing.Deque.Machine.{
  ChaseLevDeque, Thief, steal_top, steal_bot, steal_array, steal_get, steal_cas,
}
use lock_free_work_stealing.Deque.Invariant.{item, ThiefOk}

-- `top_` only rises; where it stays and its index is live, so do the index and what stands there.
pub record Frame (d : ChaseLevDeque) (last : ℕ) (d' : ChaseLevDeque) (last' : ℕ) : Type 0 where
  pub rises : d.top ≤ d'.top
  pub heap_grows : d.next ≤ d'.next
  pub stays_live : d'.top ≡ d.top → d.top < last → d'.top < last'
  pub same_item : d'.top ≡ d.top → d.top < last → item d' d.top ≡ item d d.top
  pub same_get :
      (a : ℕ)
      → a < d.next
      → d'.top ≡ d.top
      → d.top < last
      → get (d'.heap a) d.top ≡ get (d.heap a) d.top

module _ {d d' : ChaseLevDeque} {last last' : ℕ} (f : Frame d last d' last') where
  pub Frame-ThiefOk : (th : Thief) → ThiefOk d last th → ThiefOk d' last' th
  Frame-ThiefOk Thief.idle h = tt
  Frame-ThiefOk steal_top h = tt
  Frame-ThiefOk (steal_bot t) h = omega (arith, f.rises)
  Frame-ThiefOk (steal_array t) h = (
    omega (arith, f.rises),
    λ e. f.stays_live (omega (arith, f.rises)) (h.1 (omega (arith, f.rises))),
  )
  Frame-ThiefOk (steal_get t a) h = (
    omega (arith, f.rises),
    λ e. f.stays_live (omega (arith, f.rises)) (h.1 (omega (arith, f.rises))),
    omega (arith, f.heap_grows),
    λ e.
        let stays : d'.top ≡ d.top = omega (arith, f.rises) in
        let same : t ≡ d.top = omega (arith, f.rises) in
        subst (λ k. get (d'.heap a) k ≡ item d' k) (sym stays)
          (f.same_get a h.2 stays (h.1 same) ∙ h.3 same ∙ sym (f.same_item stays (h.1 same))),
  )
  Frame-ThiefOk (steal_cas t raw) h = (
    omega (arith, f.rises),
    λ e. f.stays_live (omega (arith, f.rises)) (h.1 (omega (arith, f.rises))),
    λ e.
        let stays : d'.top ≡ d.top = omega (arith, f.rises) in
        let same : t ≡ d.top = omega (arith, f.rises) in
        subst (λ k. raw ≡ item d' k) (sym stays) (h.2 same ∙ sym (f.same_item stays (h.1 same))),
  )
