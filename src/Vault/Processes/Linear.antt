-- ===== src/Vault/Processes/Linear.antt =====
-- Interleaved calls answer like calls one after the other.
use custodly.Prelude.{
  map, sym, ◌≡◌, ℕ, refl, List, [], ◌∷◌, ◌++◌, inl, inr, Bool-cases, ◌==◌, if◌then◌else◌, ==_iff,
  subst,
}
use custodly.Chrono.{Chrono, IsRfc3339}
use custodly.Vault.Host.{Host}
use custodly.Vault.Store.{Vault}
use custodly.Vault.Database.{IsDatabase}
use custodly.Vault.Abstract.{Contents, Call, Reply, IsCall, Run, stop}
use custodly.Vault.Refine.{Represents}
use custodly.Vault.Processes.{Phase, replied, advance, Processes, turn, take_turns, all_waiting}
use custodly.Vault.Processes.History.{
  Answered-last, Run-snoc, IsOwned, IsPending-IsOwned, IsOwned-snoc, IsOwned-cases, Has, IsOnce,
  IsOnce-snoc, map-snoc,
}
use custodly.Vault.Processes.Turn.{Advanced, silent, committed, advance-Advanced}

module _ (host : Host) (c : Chrono) (laws : IsRfc3339 c) (v : Vault) (db : IsDatabase host v) where
  -- The processes that have been answered, each once, in an order in which the map allows their calls
  -- to be made one after the other with their replies; the database holds the entries that are left.
  pub record Linear (s : Contents host c) (calls : ℕ → Call host c) (p : Processes host c v)
      : Type 0 where
    pub order : List ℕ
    pub replies : List (Reply host c)
    pub contents : Contents host c
    pub once : IsOnce order
    pub run : Run host c s (map calls order) replies contents
    pub holds : Represents host c laws v db p.world contents
    pub owned : (i : ℕ) → IsOwned host c order replies i (calls i) (p.phases i)

  abbrev after_turn : ℕ → Processes host c v → Phase host c × host.World → Processes host c v
  after_turn i p r = record { phases = λ j. if i == j then r.0 else p.phases j; world = r.1 }

  advanced-Linear :
      (s : Contents host c) (calls : ℕ → Call host c) (i : ℕ) (p : Processes host c v)
      (l : Linear s calls p) (r : Phase host c × host.World)
      → ¬ Has i l.order
      → Advanced host c laws v db l.contents (calls i) r
      → Linear s calls (after_turn i p r)
  advanced-Linear s calls i p l _ new (silent phase w pending holds) = record {
    order = l.order;
    replies = l.replies;
    contents = l.contents;
    once = l.once;
    run = l.run;
    holds = holds;
    owned = λ j. elim (Bool-cases (i == j)) [
      | inl this ↦ rw this (
          subst (λ k. IsOwned host c l.order l.replies k (calls k) phase) ((==_iff i j).0 this)
            (IsPending-IsOwned host c l.order l.replies i (calls i) phase pending new))
      | inr other ↦ rw other (l.owned j)
    ];
  }
  advanced-Linear s calls i p l _ new (committed reply t w step holds) = record {
    order = l.order ++ (i ∷ []);
    replies = l.replies ++ (reply ∷ []);
    contents = t;
    once = IsOnce-snoc i l.order l.once new;
    run =
        subst (λ ks. Run host c s ks (l.replies ++ (reply ∷ [])) t) (sym (map-snoc calls l.order i))
          (Run-snoc host c (calls i) reply (map calls l.order) l.replies l.run step);
    holds = holds;
    owned = λ j. elim (Bool-cases (i == j)) [
      | inl this ↦ rw this (
          subst
            (λ k.
              IsOwned host c (l.order ++ (i ∷ [])) (l.replies ++ (reply ∷ [])) k (calls k)
                (replied reply))
            ((==_iff i j).0 this) (Answered-last host c calls i reply l.order l.replies l.run))
      | inr other ↦ rw other (
          IsOwned-snoc host c l.order l.replies j i (calls j) reply (p.phases j)
            (λ same. cc ((==_iff i j).1 same, other)) (l.owned j))
    ];
  }

  unchanged-Linear :
      (s : Contents host c) (calls : ℕ → Call host c) (i : ℕ) (p : Processes host c v)
      → Linear s calls p
      → Linear s calls (after_turn i p (p.phases i, p.world))
  unchanged-Linear s calls i p l = record {
    order = l.order;
    replies = l.replies;
    contents = l.contents;
    once = l.once;
    run = l.run;
    holds = l.holds;
    owned = λ j. elim (Bool-cases (i == j)) [
      | inl this ↦ rw this (
          subst (λ k. IsOwned host c l.order l.replies k (calls k) (p.phases i))
            ((==_iff i j).0 this) (l.owned i))
      | inr other ↦ rw other (l.owned j)
    ];
  }

  replied_stays :
      (phase : Phase host c) (r : Reply host c) (w : host.World)
      → phase ≡ replied r
      → advance host c v phase w ≡ (phase, w)
  unfolding advance
  replied_stays phase r w h = rw h refl

  turn-Linear :
      (s : Contents host c) (calls : ℕ → Call host c) (i : ℕ) (p : Processes host c v)
      → IsCall host c (calls i)
      → Linear s calls p
      → Linear s calls (turn host c v i p)
  unfolding turn
  turn-Linear s calls i p good l =
      elim (IsOwned-cases host c l.order l.replies i (calls i) (p.phases i) (l.owned i)) [
        | inl (pending, new) ↦
            advanced-Linear s calls i p l (advance host c v (p.phases i) p.world) new (
              advance-Advanced host c laws v db l.contents (calls i) (p.phases i) p.world l.holds
                good pending)
        | inr (r, is) ↦
            rw (replied_stays (p.phases i) r p.world is) (unchanged-Linear s calls i p l)
      ]

  take_turns_onto :
      (s : Contents host c) (calls : ℕ → Call host c) (is : List ℕ) (p : Processes host c v)
      → ((i : ℕ) → IsCall host c (calls i))
      → Linear s calls p
      → Linear s calls (take_turns host c v is p)
  unfolding take_turns
  take_turns_onto s calls [] p good l = l
  take_turns_onto s calls (i ∷ is) p good l =
      take_turns_onto s calls is (turn host c v i p) good (turn-Linear s calls i p (good i) l)

  -- Processes that start one call each, from a database that holds the entries of a map, and run the
  -- commands of their calls in any order, each command as a whole, get the replies that the map
  -- allows when the calls of the answered processes, each once and no other, are made one after the
  -- other in some order, and leave the database with the entries that the map then has.
  pub take_turns-Linear :
      (s : Contents host c) (calls : ℕ → Call host c) (is : List ℕ) (w : host.World)
      → Represents host c laws v db w s
      → ((i : ℕ) → IsCall host c (calls i))
      → Linear s calls (take_turns host c v is (all_waiting host c v calls w))
  take_turns-Linear s calls is w holds good =
      take_turns_onto s calls is (all_waiting host c v calls w) good (record {
        order = [];
        replies = [];
        contents = s;
        once = tt;
        run = stop s;
        holds = holds;
        owned = λ i. (refl, λ none. none);
      })
