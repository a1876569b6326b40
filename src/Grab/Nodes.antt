-- ===== src/Grab/Nodes.antt =====
-- Which nodes are held after a release and after a reconciliation.
use home_assistant_bluetooth.Prelude.{
  ℕ, ◌≡◌, refl, ◌∙◌, inl, inr, false, ◌&&◌, ◌||◌, not, List, [], ◌∷◌, ◌==◌, nat_eq, text_eq,
  text_beq_iff, arith, Text, Bool-cases, Option-cases, if◌then◌else◌,
}
use mathlib.Core.Bool.{false≢true}
use home_assistant_bluetooth.Prelude.Dict.{Dict, get, has, contains}
use home_assistant_bluetooth.Grab.{
  Grabber, paths, release_sync, release_stale, release_each, release_all_sync, sorted, insert,
}
use home_assistant_bluetooth.Grab.Dicts.{has-pop}

pub has-release_sync :
    (path p : Text) (g : Grabber)
    → has (release_sync path g).fds p ≡ (if path == p then false else has g.fds p)
unfolding release_sync
has-release_sync path p g = elim (Option-cases (get g.fds path)) [
  | inl e ↦ rw (e, release_sync) (unfold has in ground (arith, text_beq_iff path p))
  | inr (fd, e) ↦ rw (e, release_sync) (has-pop g.fds path p)
]

has-release_each :
    (held : List Text) (p : Text) (g : Grabber)
    → has (release_each held g).fds p ≡ (has g.fds p && not (contains held p))
unfolding release_each contains
has-release_each [] p g = ground arith
has-release_each (path ∷ held) p g =
    ground (arith, has-release_each held p (release_sync path g), has-release_sync path p g)

pub has-release_stale :
    (nodes held : List Text) (p : Text) (g : Grabber)
    → has (release_stale nodes held g).fds p
      ≡ (has g.fds p && (contains nodes p || not (contains held p)))
unfolding release_stale contains
has-release_stale nodes [] p g = ground arith
has-release_stale nodes (path ∷ held) p g = elim (Bool-cases (contains nodes path)) [
  | inl e ↦
      rw (e, release_stale) (ground (arith, has-release_stale nodes held p g, text_beq_iff path p))
  | inr e ↦
      rw (e, release_stale)
        (ground (
          arith,
          has-release_stale nodes held p (release_sync path g),
          has-release_sync path p g,
          text_beq_iff path p,
        ))
]

pub contains-paths : (d : Dict Text ℕ) (p : Text) → contains (paths d) p ≡ has d p
unfolding contains has get
contains-paths [] p = refl
contains-paths ((q, fd) ∷ d) p = ground (arith, contains-paths d p)

contains-insert :
    (x p : Text) (xs : List Text) → contains (insert x xs) p ≡ (x == p || contains xs p)
unfolding contains insert
contains-insert x p [] = refl
contains-insert x p (y ∷ ys) = ground (arith, contains-insert x p ys)

pub contains-sorted : (xs : List Text) (p : Text) → contains (sorted xs) p ≡ contains xs p
unfolding contains sorted
contains-sorted [] p = refl
contains-sorted (x ∷ xs) p = contains-insert x p (sorted xs) ∙ ground (arith, contains-sorted xs p)

empty-fds : (d : Dict Text ℕ) → ((p : Text) → has d p ≡ false) → d ≡ []
unfolding has get
empty-fds [] h = refl
empty-fds ((q, fd) ∷ d) h = absurd (false≢true (ground (arith, h q, text_beq_iff q q)))

-- `_release_all_sync` leaves no node held.
pub release_all_sync-none : (g : Grabber) → (release_all_sync g).fds ≡ []
unfolding release_all_sync
release_all_sync-none g =
    empty-fds _ (λ p. has-release_each (paths g.fds) p g ∙ ground (arith, contains-paths g.fds p))
