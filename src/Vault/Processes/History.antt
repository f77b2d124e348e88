-- ===== src/Vault/Processes/History.antt =====
-- The calls that were answered so far: by which process, in which order, and with which replies.
use custodly.Prelude.{◌≡◌, ◌⊎◌, refl, List, [], ◌∷◌, ◌++◌, inl, inr, map, ap, sym, ℕ, Any, ◌≢◌}
use custodly.Chrono.{Chrono}
use custodly.Vault.Host.{Host}
use custodly.Vault.Abstract.{Contents, Call, put_call, Reply, Step, Run, stop, next}
use custodly.Vault.Processes.{Phase, waiting, grouped, replied}

-- The process is in the list.
abbrev pub Has : ℕ → List ℕ → Type 0
Has i is = Any (λ j. j ≡ i) is

-- No process is in the list twice.
abbrev pub IsOnce : List ℕ → Type 0
IsOnce [] = Unit
IsOnce (i ∷ is) = (¬ Has i is) × IsOnce is

pub Has-snoc : (i j : ℕ) (is : List ℕ) → Has i (is ++ (j ∷ [])) → Has i is ⊎ (j ≡ i)
Has-snoc i j [] (inl h) = inr h
Has-snoc i j [] (inr h) = absurd h
Has-snoc i j (k ∷ is) (inl h) = inl (inl h)
Has-snoc i j (k ∷ is) (inr h) = elim (Has-snoc i j is h) [
  | inl before ↦ inl (inr before)
  | inr last ↦ inr last
]

pub IsOnce-snoc : (j : ℕ) (is : List ℕ) → IsOnce is → ¬ Has j is → IsOnce (is ++ (j ∷ []))
IsOnce-snoc j [] h new = ((λ none. none), tt)
IsOnce-snoc j (i ∷ is) (first, rest) new = (
  (λ again. elim (Has-snoc i j is again) [
    | inl before ↦ first before
    | inr last ↦ new (inl (sym last))
  ]),
  IsOnce-snoc j is rest (λ later. new (inr later)),
)

pub map-snoc :
    {A : Type 0} (f : ℕ → A) (is : List ℕ) (j : ℕ) → map f (is ++ (j ∷ [])) ≡ map f is ++ (f j ∷ [])
map-snoc f [] j = refl
map-snoc f (i ∷ is) j = ap (λ rest. f i ∷ rest) (map-snoc f is j)

module _ (host : Host) (c : Chrono) where
  -- The process is one of those answered, and got this reply.
  abbrev pub Answered : ℕ → Reply host c → List ℕ → List (Reply host c) → Type 0
  Answered i reply [] rs = ⊥
  Answered i reply (k ∷ ks) [] = ⊥
  Answered i reply (k ∷ ks) (r ∷ rs) = ((k ≡ i) × (r ≡ reply)) ⊎ Answered i reply ks rs

  Answered-snoc :
      (i k : ℕ) (reply r : Reply host c) (ks : List ℕ) (rs : List (Reply host c))
      → Answered i reply ks rs
      → Answered i reply (ks ++ (k ∷ [])) (rs ++ (r ∷ []))
  Answered-snoc i k reply r [] rs h = absurd h
  Answered-snoc i k reply r (j ∷ ks) [] h = absurd h
  Answered-snoc i k reply r (j ∷ ks) (x ∷ rs) h = elim h [
    | inl here ↦ inl here
    | inr later ↦ inr (Answered-snoc i k reply r ks rs later)
  ]

  -- As many replies as calls.
  abbrev AsMany : {A B : Type 0} → List A → List B → Type 0
  AsMany [] [] = Unit
  AsMany [] (b ∷ bs) = ⊥
  AsMany (a ∷ rest) [] = ⊥
  AsMany (a ∷ rest) (b ∷ bs) = AsMany rest bs

  Run-AsMany :
      {s t : Contents host c} (ks : List (Call host c)) (rs : List (Reply host c))
      → Run host c s ks rs t
      → AsMany ks rs
  Run-AsMany _ _ (stop s) = tt
  Run-AsMany _ _ (next s t u k r ks rs step rest) = Run-AsMany ks rs rest

  last_of :
      (calls : ℕ → Call host c) (i : ℕ) (reply : Reply host c) (is : List ℕ)
      (rs : List (Reply host c))
      → AsMany (map calls is) rs
      → Answered i reply (is ++ (i ∷ [])) (rs ++ (reply ∷ []))
  last_of calls i reply [] [] h = inl (refl, refl)
  last_of calls i reply [] (r ∷ rs) h = absurd h
  last_of calls i reply (j ∷ is) [] h = absurd h
  last_of calls i reply (j ∷ is) (r ∷ rs) h = inr (last_of calls i reply is rs h)

  pub Answered-last :
      (calls : ℕ → Call host c) {s t : Contents host c} (i : ℕ) (reply : Reply host c) (is : List ℕ)
      (rs : List (Reply host c))
      → Run host c s (map calls is) rs t
      → Answered i reply (is ++ (i ∷ [])) (rs ++ (reply ∷ []))
  Answered-last calls i reply is rs h = last_of calls i reply is rs (Run-AsMany (map calls is) rs h)

  pub Run-snoc :
      {s t u : Contents host c} (call : Call host c) (reply : Reply host c)
      (ks : List (Call host c)) (rs : List (Reply host c))
      → Run host c s ks rs t
      → Step host c t call reply u
      → Run host c s (ks ++ (call ∷ [])) (rs ++ (reply ∷ [])) u
  Run-snoc call reply _ _ (stop s) step = next s _ _ call reply [] [] step (stop _)
  Run-snoc call reply _ _ (next s t u k r ks rs first rest) step =
      next s t _ k r _ _ first (Run-snoc call reply ks rs rest step)

  -- A call that has not been answered yet, with what its process still knows of it.
  abbrev pub IsPending : Call host c → Phase host c → Type 0
  IsPending call (waiting k) = k ≡ call
  IsPending call (grouped label m secret) = put_call label m secret ≡ call
  IsPending call (replied r) = ⊥

  -- The process has been answered, and its reply stands at its place; or it has not, and is pending.
  abbrev pub IsOwned : List ℕ → List (Reply host c) → ℕ → Call host c → Phase host c → Type 0
  IsOwned is rs i call (waiting k) = IsPending call (waiting k) × (¬ Has i is)
  IsOwned is rs i call (grouped label m secret) =
      IsPending call (grouped label m secret) × (¬ Has i is)
  IsOwned is rs i call (replied r) = Answered i r is rs

  pub IsOwned-cases :
      (is : List ℕ) (rs : List (Reply host c)) (i : ℕ) (call : Call host c) (phase : Phase host c)
      → IsOwned is rs i call phase
      → (IsPending call phase × (¬ Has i is)) ⊎ ((r : Reply host c) × (phase ≡ replied r))
  IsOwned-cases is rs i call (waiting k) h = inl h
  IsOwned-cases is rs i call (grouped label m secret) h = inl h
  IsOwned-cases is rs i call (replied r) h = inr (r, refl)

  pub IsPending-IsOwned :
      (is : List ℕ) (rs : List (Reply host c)) (i : ℕ) (call : Call host c) (phase : Phase host c)
      → IsPending call phase
      → ¬ Has i is
      → IsOwned is rs i call phase
  IsPending-IsOwned is rs i call (waiting k) h new = (h, new)
  IsPending-IsOwned is rs i call (grouped label m secret) h new = (h, new)
  IsPending-IsOwned is rs i call (replied r) h new = absurd h

  still_new : (i j : ℕ) (is : List ℕ) → ¬ Has i is → j ≢ i → ¬ Has i (is ++ (j ∷ []))
  still_new i j is new apart h = elim (Has-snoc i j is h) [
    | inl before ↦ new before
    | inr last ↦ apart last
  ]

  pub IsOwned-snoc :
      (is : List ℕ) (rs : List (Reply host c)) (i j : ℕ) (call : Call host c) (r : Reply host c)
      (phase : Phase host c)
      → j ≢ i
      → IsOwned is rs i call phase
      → IsOwned (is ++ (j ∷ [])) (rs ++ (r ∷ [])) i call phase
  IsOwned-snoc is rs i j call r (waiting k) apart (h, new) = (h, still_new i j is new apart)
  IsOwned-snoc is rs i j call r (grouped label m secret) apart (h, new) =
      (h, still_new i j is new apart)
  IsOwned-snoc is rs i j call r (replied x) apart h = Answered-snoc i j x r is rs h
