-- ===== src/Alert/Winner.antt =====
-- The rendezvous of hub/alert/responsibility.go.
use libre_ping.Base.{
  ℕ, ◌≡◌, refl, sym, subst, ◌≢◌, ◌↔◌, ◌⊎◌, inl, inr, Bool, true, false, ◌&&◌, ◌||◌, List, [], ◌∷◌,
  arith, ltb, ◌==◌, if◌then◌else◌, Bool-cases, In, All, Str, str_dec, str_eq, str_lt, All_In,
}
use libre_ping.Base.Text.{str_lt_irrefl, str_lt_asym, str_le_trans, str_le_antisym}
use libre_ping.Base.Sorting.{In-perm, All-perm}
use mathlib.Core.List.{Permᴰ}
use mathlib.Core.List.Permᴰ
use libre_ping.Identity.{Crypto}
use libre_ping.Alert.{score, outranks, among_loop, responsible_among}

module _ (c : Crypto) (key : Str) where
  -- A candidate that no candidate outranks.
  pub record IsWinner (w : Str) (candidates : List Str) : Type 0 where
    pub listed : In w candidates
    pub unbeaten : All (λ h. outranks c key h w ≡ false) candidates

  outranks_irrefl : (h : Str) → outranks c key h h ≡ false
  unfolding outranks
  outranks_irrefl h = ground (arith, str_lt_irrefl h)

  outranks_trans :
      (x y z : Str)
      → outranks c key y x ≡ false
      → outranks c key z y ≡ false
      → outranks c key z x ≡ false
  unfolding outranks
  outranks_trans x y z p q = ground (arith, str_le_trans z y x)

  outranks_antisym : (x y : Str) → outranks c key y x ≡ false → outranks c key x y ≡ false → x ≡ y
  unfolding outranks
  outranks_antisym x y p q = ground (arith, str_le_antisym x y)

  outranks_asym : (x y : Str) → outranks c key y x ≡ true → outranks c key x y ≡ false
  unfolding outranks
  outranks_asym x y p = ground (arith, str_lt_asym x y)

  pub winner_unique : (v w : Str) (l : List Str) → IsWinner v l → IsWinner w l → v ≡ w
  winner_unique v w l p q =
      outranks_antisym v w (All_In _ w l p.unbeaten q.listed) (All_In _ v l q.unbeaten p.listed)

  among_member :
      (self : Str) (hs : List Str) (in_set : Bool) (best : Str) (n : ℕ)
      → ((among_loop c self key hs in_set best n).0 ≡ true) ↔ ((in_set ≡ true) ⊎ In self hs)
  unfolding among_loop
  among_member self [] in_set best n = ground arith
  among_member self (h ∷ hs) in_set best n =
      let wins = str_eq best [] || ltb n (score c h key) || (score c h key == n && str_lt best h) in
      ground (
        arith,
        among_member self hs (if str_eq h self then true else in_set) (if wins then h else best)
            (if wins then score c h key else n),
      )

  -- What a loop that keeps the better of two ends with.
  better_IsWinner :
      (best h w : Str) (hs : List Str)
      → outranks c key h best ≡ true
      → IsWinner w (h ∷ hs)
      → IsWinner w (best ∷ h ∷ hs)
  better_IsWinner best h w hs t is = record {
    listed = inr is.listed;
    unbeaten = (outranks_trans w h best is.unbeaten.0 (outranks_asym best h t), is.unbeaten);
  }

  kept_IsWinner :
      (best h w : Str) (hs : List Str)
      → outranks c key h best ≡ false
      → IsWinner w (best ∷ hs)
      → IsWinner w (best ∷ h ∷ hs)
  kept_IsWinner best h w hs f is = record {
    listed = elim is.listed [ inl e ↦ inl e | inr i ↦ inr (inr i) ];
    unbeaten = (is.unbeaten.0, (outranks_trans w best h is.unbeaten.0 f, is.unbeaten.1));
  }

  among_best :
      (self : Str) (hs : List Str) (in_set : Bool) (best : Str)
      → ¬ In [] (best ∷ hs)
      → IsWinner (among_loop c self key hs in_set best (score c best key)).1 (best ∷ hs)
  unfolding among_loop outranks
  among_best self [] in_set best ne = record {
    listed = inl refl;
    unbeaten = (outranks_irrefl best, tt);
  }
  among_best self (h ∷ hs) in_set best ne = elim (Bool-cases (outranks c key h best)) [
    | inl t ↦
        let wins : (str_eq best []
              || ltb (score c best key) (score c h key)
              || (score c h key == score c best key && str_lt best h))
            ≡ true =
          ground arith in
        rw (among_loop, wins)
          (better_IsWinner best h _ hs t (among_best self hs _ h (λ i. ne (inr i))))
    | inr f ↦
        let apart : best ≢ [] = λ e. ne (inl e) in
        let loses : (str_eq best []
              || ltb (score c best key) (score c h key)
              || (score c h key == score c best key && str_lt best h))
            ≡ false =
          ground arith in
        rw (among_loop, loses)
          (kept_IsWinner best h _ hs f (
            among_best self hs _ best
              (λ i. elim i [ inl e ↦ ne (inl e) | inr j ↦ ne (inr (inr j)) ])))
  ]

  among_IsWinner :
      (self h : Str) (hs : List Str) (in_set : Bool)
      → ¬ In [] (h ∷ hs)
      → IsWinner (among_loop c self key (h ∷ hs) in_set [] 0).1 (h ∷ hs)
  unfolding among_loop str_dec
  among_IsWinner self h hs in_set ne = among_best self hs _ h ne

  -- A hub is responsible among candidates, none of them without an ID, exactly if it is one of them
  -- and none of them has a higher score, or the same score and a larger ID.
  pub responsible_among_iff :
      (self : Str) (candidates : List Str)
      → ¬ In [] candidates
      → (responsible_among c self candidates key ≡ true) ↔ IsWinner self candidates
  unfolding responsible_among
  responsible_among_iff self [] ne = (λ e. absurd cc, λ w. elim w.listed [ ])
  responsible_among_iff self (h ∷ hs) ne =
      let best = (among_loop c self key (h ∷ hs) false [] 0).1 in
      let is : IsWinner best (h ∷ hs) = among_IsWinner self h hs false ne in
      let member = among_member self (h ∷ hs) false [] 0 in
      (
        λ e. let same : best ≡ self = ground arith in subst (λ x. IsWinner x (h ∷ hs)) same is,
        λ w.
            let same = winner_unique best self (h ∷ hs) is w in
            let listed = member.1 (inr w.listed) in ground arith,
      )

  IsWinner-perm : (w : Str) {l m : List Str} → Permᴰ l m → IsWinner w l → IsWinner w m
  IsWinner-perm w p is = record {
    listed = In-perm w p is.listed;
    unbeaten = All-perm _ p is.unbeaten;
  }

  Bool_ext : (a b : Bool) → (a ≡ true → b ≡ true) → (b ≡ true → a ≡ true) → a ≡ b
  Bool_ext a b f g = ground arith

  -- However the candidates are ordered, the answer is the same.
  pub responsible_among-perm :
      (self : Str) {l m : List Str}
      → Permᴰ l m
      → ¬ In [] l
      → responsible_among c self l key ≡ responsible_among c self m key
  responsible_among-perm self {l} {m} p ne =
      let left = responsible_among_iff self l ne in
      let right = responsible_among_iff self m (λ i. ne (In-perm [] (Permᴰ.symm p) i)) in
      Bool_ext _ _ (λ e. right.1 (IsWinner-perm self p (left.0 e)))
        (λ e. left.1 (IsWinner-perm self (Permᴰ.symm p) (right.0 e)))

  -- Exactly one of some candidates is responsible.
  pub exactly_one_responsible :
      (candidates : List Str)
      → candidates ≢ []
      → ¬ In [] candidates
      → (w : Str) × In w candidates
        × ((v : Str) → (responsible_among c v candidates key ≡ true) ↔ (v ≡ w))
  exactly_one_responsible [] some_hub ne = absurd (some_hub refl)
  exactly_one_responsible (h ∷ hs) some_hub ne =
      let w = (among_loop c h key (h ∷ hs) false [] 0).1 in
      let is : IsWinner w (h ∷ hs) = among_IsWinner h h hs false ne in
      (
        w,
        is.listed,
        λ v.
            let r = responsible_among_iff v (h ∷ hs) ne in
            (
              λ e. winner_unique v w (h ∷ hs) (r.0 e) is,
              λ e. r.1 (subst (λ x. IsWinner x (h ∷ hs)) (sym e) is),
            ),
      )
