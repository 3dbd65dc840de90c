-- ===== src/Alert/Newest.antt =====
-- latestPerProbeByCheck of hub/alert/alert.go, for each check and probe.
use libre_ping.Base.{
  ◌≡◌, refl, ◌∙◌, inl, inr, Bool, ◌&&◌, Option, none, some, List, [], ◌∷◌, map, arith,
  if◌then◌else◌, Bool-cases, select, In, All, ltb_ℤ, ◌≤ℤ◌, Str, str_dec, str_eq, Map, get, put,
  get-put,
}
use libre_ping.Protocol.{SignedResult, ResultContent}
use libre_ping.Alert.Observed.{later, or_empty, add_result, latest_loop, latest_per_probe_by_check}

-- `out[check][probe]`
abbrev pub look : Str → Str → Map Str (Map Str ResultContent) → Option ResultContent
look check probe out = get str_dec probe (or_empty (get str_dec check out))

abbrev pub is_of : Str → Str → ResultContent → Bool
is_of check probe c = str_eq c.check_id check && str_eq c.probe_id probe

look-add_result :
    (check probe : Str) (c : ResultContent) (out : Map Str (Map Str ResultContent))
    → look check probe (add_result c out) ≡ (
        if is_of check probe c then some (later c (look check probe out)) else look check probe out)
unfolding add_result
look-add_result check probe c out =
    let m = or_empty (get str_dec c.check_id out) in
    ground (
      arith,
      get-put str_dec c.check_id check
          (put str_dec c.probe_id (later c (get str_dec c.probe_id m)) m) out,
      get-put str_dec c.probe_id probe (later c (get str_dec c.probe_id m)) m,
    )

-- One of some results, and none of them is later.
pub record IsLatest (c : ResultContent) (cs : List ResultContent) : Type 0 where
  pub listed : In c cs
  pub latest : All (λ d. d.timestamp_ms ≤ℤ c.timestamp_ms) cs

abbrev pub contents_of : Str → Str → List SignedResult → List ResultContent
contents_of check probe rs = select (is_of check probe) (map (λ sr. sr.content) rs)

-- What a look-up gives: nothing for no result, or a latest of them.
abbrev pub IsLookup : Option ResultContent → List ResultContent → Type 0
IsLookup none cs = cs ≡ []
IsLookup (some c) cs = IsLatest c cs

keep_later :
    (o : Option ResultContent) (n s : ResultContent) (cs : List ResultContent)
    → IsLookup o (later s (some n) ∷ cs)
    → IsLookup o (n ∷ s ∷ cs)
keep_later none n s cs h = absurd cc
keep_later (some c) n s cs h = elim (Bool-cases (ltb_ℤ n.timestamp_ms s.timestamp_ms)) [
  | inl lt ↦
      let is : IsLatest c (s ∷ cs) = rw lt at h in
      let le : s.timestamp_ms ≤ℤ c.timestamp_ms = is.latest.0 in
      record { listed = inr is.listed; latest = (ground arith, is.latest) }
  | inr ge ↦
      let is : IsLatest c (n ∷ cs) = rw ge at h in
      let le : n.timestamp_ms ≤ℤ c.timestamp_ms = is.latest.0 in
      record {
        listed = elim is.listed [ inl here ↦ inl here | inr there ↦ inr (inr there) ];
        latest = (le, (ground arith, is.latest.1));
      }
]

latest_from :
    (check probe : Str) (rs : List SignedResult) (out : Map Str (Map Str ResultContent))
    (n : ResultContent)
    → look check probe out ≡ some n
    → IsLookup (look check probe (latest_loop rs out)) (n ∷ contents_of check probe rs)
unfolding latest_loop
latest_from check probe [] out n h = rw h (record { listed = inl refl; latest = (omega arith, tt) })
latest_from check probe (sr ∷ rs) out n h = elim (Bool-cases (is_of check probe sr.content)) [
  | inl t ↦
      let step = look-add_result check probe sr.content out in
      let next : look check probe (add_result sr.content out) ≡ some (later sr.content (some n)) =
        step ∙ rw (t, h) refl in
      rw t (keep_later _ n sr.content _ (latest_from check probe rs _ _ next))
  | inr f ↦
      let step = look-add_result check probe sr.content out in
      let next : look check probe (add_result sr.content out) ≡ some n = step ∙ rw (f, h) refl in
      rw f (latest_from check probe rs _ n next)
]

latest_of :
    (check probe : Str) (rs : List SignedResult) (out : Map Str (Map Str ResultContent))
    → look check probe out ≡ none
    → IsLookup (look check probe (latest_loop rs out)) (contents_of check probe rs)
unfolding latest_loop
latest_of check probe [] out h = rw h refl
latest_of check probe (sr ∷ rs) out h = elim (Bool-cases (is_of check probe sr.content)) [
  | inl t ↦
      let next : look check probe (add_result sr.content out) ≡ some sr.content =
        look-add_result check probe sr.content out ∙ rw (t, h) refl in
      rw t (latest_from check probe rs _ sr.content next)
  | inr f ↦
      let next : look check probe (add_result sr.content out) ≡ none =
        look-add_result check probe sr.content out ∙ rw (f, h) refl in
      rw f (latest_of check probe rs _ next)
]

-- For every check and probe: there is nothing if the list has no result of them, and otherwise the
-- content of one of their results, than which none is later.
pub latest_per_probe-IsLookup :
    (check probe : Str) (rs : List SignedResult)
    → IsLookup (look check probe (latest_per_probe_by_check rs)) (contents_of check probe rs)
unfolding latest_per_probe_by_check get
latest_per_probe-IsLookup check probe rs = latest_of check probe rs [] refl
