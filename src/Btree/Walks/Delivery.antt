-- ===== src/Btree/Walks/Delivery.antt =====
-- What a walk's callback is given: a sequence of records that is the tree's own, whatever the
-- callback answers.
use libhfs.Prelude.{
  ◌≡◌, refl, sym, inl, inr, Bool, true, Bool-cases, List, [], ◌∷◌, ◌++◌, if◌then◌else◌,
}
use mathlib.Core.Path.{fun_ext}
use libhfs.Errors.{Error, Result, ok, err, panic}
use libhfs.Bytes.{Bytes}
use libhfs.Btree.Search.{Scan}
use libhfs.Btree.Leaves.{LeafCallback, and_then}
use libhfs.Btree.Walks.{Walk}

-- A record that is passed to the callback, or the note that a keyed descent failed.
pub data Event (K : Type 0) : Type 0 where
  item : K → Bytes → Event K
  fell_back : Event K

-- The events of a walk, and how it ends if no callback ends it.
abbrev pub Trace : Type 0 → Type 0
Trace K = List (Event K) × Result (Unit {0})

abbrev pub done : {K : Type 0} → Trace K
done = ([], ok tt)

-- One trace after another.
abbrev pub seq : {K : Type 0} → Trace K → Trace K → Trace K
seq (es, ok _) (fs, r) = (es ++ fs, r)
seq (es, err e) u = (es, err e)
seq (es, panic) u = (es, panic)

module _ {K S : Type 0} (note : S → S) (cb : LeafCallback S K) where
  unfoldable pub play_events : List (Event K) → Result (Unit {0}) → S → Scan S
  play_events [] final s = (s, final)
  play_events (item k b ∷ es) final s = and_then (cb s k b) (play_events es final)
  play_events (fell_back ∷ es) final s = play_events es final (note s)

  -- The callback called for each record in order, until it returns an error.
  abbrev pub play : Trace K → S → Scan S
  play (es, final) = play_events es final

  and_then_assoc :
      (r : Scan S) (f g : S → Scan S)
      → and_then (and_then r f) g ≡ and_then r (λ s. and_then (f s) g)
  and_then_assoc (s, ok _) f g = refl
  and_then_assoc (s, err e) f g = refl
  and_then_assoc (s, panic) f g = refl

  pub play_events-append :
      (es fs : List (Event K)) (final : Result (Unit {0})) (s : S)
      → play_events (es ++ fs) final s ≡ and_then (play_events es (ok tt) s) (play_events fs final)
  unfolding play_events
  play_events-append [] fs final s = refl
  play_events-append (item k b ∷ es) fs final s =
      rw (fun_ext (play_events-append es fs final))
        (sym (and_then_assoc (cb s k b) (play_events es (ok tt)) (play_events fs final)))
  play_events-append (fell_back ∷ es) fs final s = play_events-append es fs final (note s)

  and_then-stop :
      (r : Scan S) (f g : S → Scan S)
      → ((s : S) → and_then (f s) g ≡ f s)
      → and_then (and_then r f) g ≡ and_then r f
  and_then-stop (s, ok _) f g h = h s
  and_then-stop (s, err e) f g h = refl
  and_then-stop (s, panic) f g h = refl

  play_events-err :
      (es : List (Event K)) (e : Error) (g : S → Scan S) (s : S)
      → and_then (play_events es (err e) s) g ≡ play_events es (err e) s
  unfolding play_events
  play_events-err [] e g s = refl
  play_events-err (item k b ∷ es) e g s =
      and_then-stop (cb s k b) (play_events es (err e)) g (play_events-err es e g)
  play_events-err (fell_back ∷ es) e g s = play_events-err es e g (note s)

  play_events-panic :
      (es : List (Event K)) (g : S → Scan S) (s : S)
      → and_then (play_events es panic s) g ≡ play_events es panic s
  unfolding play_events
  play_events-panic [] g s = refl
  play_events-panic (item k b ∷ es) g s =
      and_then-stop (cb s k b) (play_events es panic) g (play_events-panic es g)
  play_events-panic (fell_back ∷ es) g s = play_events-panic es g (note s)

  pub play-seq : (t u : Trace K) (s : S) → play (seq t u) s ≡ and_then (play t s) (play u)
  play-seq (es, ok _) (fs, r) s = play_events-append es fs r s
  play-seq (es, err e) u s = sym (play_events-err es e (play u) s)
  play-seq (es, panic) u s = sym (play_events-panic es (play u) s)

-- A walk that plays a trace of its own.
pub record Delivers {K : Type 0} (w : Walk K) : Type 1 where
  pub trace : Trace K
  pub plays :
      (S : Type 0) (note : S → S) (cb : LeafCallback S K) (s : S)
      → w S note cb s ≡ play note cb trace s

-- Every record that is delivered has a key that passes a test.
abbrev pub AreOf : {K : Type 0} → (K → Bool) → List (Event K) → Type 0
AreOf same [] = Unit
AreOf same (item k b ∷ es) = (same k ≡ true) × AreOf same es
AreOf same (fell_back ∷ es) = AreOf same es

pub append-AreOf :
    {K : Type 0} (same : K → Bool) (es fs : List (Event K))
    → AreOf same es
    → AreOf same fs
    → AreOf same (es ++ fs)
append-AreOf same [] fs h i = i
append-AreOf same (item k b ∷ es) fs (e, h) i = (e, append-AreOf same es fs h i)
append-AreOf same (fell_back ∷ es) fs h i = append-AreOf same es fs h i

-- The records with a key that passes a test.
abbrev pub keep : {K : Type 0} → (K → Bool) → List (Event K) → List (Event K)
keep same [] = []
keep same (item k b ∷ es) = if same k then item k b ∷ keep same es else keep same es
keep same (fell_back ∷ es) = fell_back ∷ keep same es

pub keep-AreOf : {K : Type 0} (same : K → Bool) (es : List (Event K)) → AreOf same (keep same es)
keep-AreOf same [] = tt
keep-AreOf same (item k b ∷ es) = elim (Bool-cases (same k)) [
  | inl q ↦ rw (q) (q, keep-AreOf same es)
  | inr q ↦ rw (q) (keep-AreOf same es)
]
keep-AreOf same (fell_back ∷ es) = keep-AreOf same es
