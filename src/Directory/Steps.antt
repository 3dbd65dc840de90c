-- ===== src/Directory/Steps.antt =====
-- The goroutines of hub/directory/directory.go: how Add, List and the critical sections of
-- verifyLoop interleave.
use libre_ping.Base.{
  is_member, ℕ, ◌+◌, ◌≡◌, refl, ◌⊎◌, inl, inr, Bool, true, false, Option, none, some, List, [], ◌∷◌,
  ◌++◌, arith, if◌then◌else◌, Bool-cases, Option-cases, ℤ, Str, str_dec, str_eq, get, del, get-put,
  get-del,
}
use libre_ping.Base.Sorting.{Sorting}
use libre_ping.Protocol.{HubAnnouncement}
use libre_ping.Directory.{
  Directory, Phase, at_top, checking, add, loop_top, loop_reply, list, settled,
}

-- A directory and its goroutines, each with its hub.
pub record World : Type 0 where
  pub dir : Directory
  pub loops : List (Str × Phase)

-- The goroutine after a critical section.
abbrev pub resumed : Str → Option Phase → List (Str × Phase)
resumed id none = []
resumed id (some p) = (id, p) ∷ []

-- The goroutine that Add starts.
abbrev pub started : Str → Bool → List (Str × Phase)
started id true = (id, at_top) ∷ []
started id false = []

-- `Passed url id`: a reachability check of the URL has answered the hub's ID.
module _ (s : Sorting) (Passed : Str → Str → Type 0) where
  pub data Step : World → World → Type 0 where
    announce :
        (d : Directory) (loops : List (Str × Phase)) (ann : HubAnnouncement) (now : ℤ)
        → Step
            (record { dir = d; loops = loops })
            (record {
              dir = (add ann now d).0;
              loops = started ann.hub_id (add ann now d).1 ++ loops;
            })
    top :
        (d : Directory) (before after : List (Str × Phase)) (id : Str)
        → Step
            (record { dir = d; loops = before ++ ((id, at_top) ∷ after) })
            (record {
              dir = (loop_top id d).0;
              loops = before ++ (resumed id (loop_top id d).1 ++ after);
            })
    reply :
        (d : Directory) (before after : List (Str × Phase)) (id url : Str) (answer : Bool)
        → (answer ≡ true → Passed url id)
        → Step
            (record { dir = d; loops = before ++ ((id, checking url) ∷ after) })
            (record {
              dir = (loop_reply id url answer d).0;
              loops = before ++ (resumed id (loop_reply id url answer d).1 ++ after);
            })
    listed :
        (d : Directory) (loops : List (Str × Phase)) (now : ℤ)
        → Step
            (record { dir = d; loops = loops })
            (record { dir = (list s now d).0; loops = loops })

  -- A directory that New made, and everything that its steps lead to.
  pub data Reachable (self_id : Str) (ttl : ℤ) : World → Type 0 where
    fresh : Reachable self_id ttl (record {
      dir = record { entries = []; verifying = []; ttl = ttl; self_id = self_id };
      loops = [];
    })
    step : (v w : World) → Reachable self_id ttl v → Step v w → Reachable self_id ttl w

-- How many goroutines of verifyLoop a hub has.
unfoldable pub count : Str → List (Str × Phase) → ℕ
count id [] = 0
count id ((j, p) ∷ rest) = (if str_eq j id then 1 else 0) + count id rest

count-append : (id : Str) (a b : List (Str × Phase)) → count id (a ++ b) ≡ count id a + count id b
unfolding count
count-append id [] b = omega arith
count-append id ((j, p) ∷ a) b = omega (arith, count-append id a b)

-- The hubs marked as having a verifier are those that have one, and it is one.
abbrev pub IsCoalesced : World → Type 0
IsCoalesced w =
    (id : Str) → count id w.loops ≡ (if is_member (get str_dec id w.dir.verifying) then 1 else 0)

-- What a critical section does with its goroutine: it ends and its mark goes, or it goes on and
-- its mark stays.
abbrev pub Settles : Str → Directory → Directory × Option Phase → Type 0
Settles id d r =
    ((r.1 ≡ none) × (r.0.verifying ≡ del str_dec id d.verifying))
    ⊎ ((p : Phase) × (r.1 ≡ some p) × (r.0.verifying ≡ d.verifying))

loop_top-Settles : (id : Str) (d : Directory) → Settles id d (loop_top id d)
unfolding loop_top
loop_top-Settles id d = elim (Option-cases (get str_dec id d.entries)) [
  | inl e ↦ rw e (inl (refl, refl))
  | inr (e, q) ↦ rw q (elim (Bool-cases (settled e e.pending_ann.public_url)) [
    | inl t ↦ rw t (inl (refl, refl))
    | inr f ↦ rw f (inr (checking e.pending_ann.public_url, refl, refl))
  ])
]

loop_reply-Settles :
    (id url : Str) (answer : Bool) (d : Directory) → Settles id d (loop_reply id url answer d)
unfolding loop_reply
loop_reply-Settles id url answer d = elim (Option-cases (get str_dec id d.entries)) [
  | inl e ↦ rw e (inl (refl, refl))
  | inr (e, q) ↦ rw q (elim (Bool-cases (str_eq e.pending_ann.public_url url)) [
    | inl t ↦ rw t (inl (refl, refl))
    | inr f ↦ rw f (inr (at_top, refl, refl))
  ])
]

IsCoalesced-resumed :
    (d : Directory) (before after : List (Str × Phase)) (id : Str) (p : Phase)
    → (r : Directory × Option Phase) → Settles id d r
    → IsCoalesced (record { dir = d; loops = before ++ ((id, p) ∷ after) })
    → IsCoalesced (record { dir = r.0; loops = before ++ (resumed id r.1 ++ after) })
unfolding count
IsCoalesced-resumed d before after id p (d', o) (inl (e, f)) h j =
    rw (e, f)
      (ground (
        arith,
        h j,
        count-append j before ((id, p) ∷ after),
        count-append j before after,
        get-del str_dec id j d.verifying,
      ))
IsCoalesced-resumed d before after id p (d', o) (inr (q, e, f)) h j =
    rw (e, f)
      (ground (
        arith,
        h j,
        count-append j before ((id, p) ∷ after),
        count-append j before ((id, q) ∷ after),
      ))

IsCoalesced-add :
    (d : Directory) (loops : List (Str × Phase)) (ann : HubAnnouncement) (now : ℤ)
    → IsCoalesced (record { dir = d; loops = loops })
    → IsCoalesced
        (record { dir = (add ann now d).0; loops = started ann.hub_id (add ann now d).1 ++ loops })
unfolding count add
IsCoalesced-add d loops ann now h id =
    ground (arith, h id, h ann.hub_id, get-put str_dec ann.hub_id id tt d.verifying)

IsCoalesced-Step :
    {s : Sorting} {Passed : Str → Str → Type 0}
    → (v w : World) → IsCoalesced v
    → Step s Passed v w
    → IsCoalesced w
unfolding list
IsCoalesced-Step v w h (announce d loops ann now) = IsCoalesced-add d loops ann now h
IsCoalesced-Step v w h (top d before after id) =
    IsCoalesced-resumed d before after id at_top (loop_top id d) (loop_top-Settles id d) h
IsCoalesced-Step v w h (reply d before after id url answer p) =
    IsCoalesced-resumed d before after id (checking url) (loop_reply id url answer d)
      (loop_reply-Settles id url answer d) h
IsCoalesced-Step v w h (listed d loops now) = h

-- In every reachable interleaving a hub has at most one verifier goroutine, and it has one exactly
-- when it is marked as verifying.
pub one_verifier :
    {s : Sorting} {Passed : Str → Str → Type 0} {self_id : Str} {ttl : ℤ}
    → (w : World) → Reachable s Passed self_id ttl w
    → IsCoalesced w
unfolding count get
one_verifier _ fresh = λ id. refl
one_verifier _ (step v w r t) = IsCoalesced-Step v w (one_verifier v r) t
