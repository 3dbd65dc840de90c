-- ===== src/Tests/Mesh.antt =====
-- The theorems on the mesh (hub/shard, hub/interest, hub/outbox, hub/trust, hub/directory,
-- hub/admit, hub/assign and probe/reporter) at concrete inputs.
use libre_ping.Base.{
  ◌≡◌, refl, sym, ap, subst, ◌∙◌, ◌↔◌, ◌⊎◌, inl, inr, Bool, true, false, some, List, [], ◌∷◌, ◌++◌,
  arith, length, In, All, pos, Str, codes, str_dec, get, put,
}
use libre_ping.Base.Sorting.{insertion}
use libre_ping.Base.Float.{whole}
use mathlib.Core.List.{Permᴰ}
use libre_ping.Protocol.{HubAnnouncement, ok}
use libre_ping.Shard.{Hub, holders, assigned_shards, of}
use libre_ping.Shard.Agreement.{holders-perm}
use libre_ping.Interest.{new_set, update, holds, holds_iff}
use libre_ping.Outbox.{Item, Outbox}
use libre_ping.Directory.{
  Directory, zero_announcement, add, list, active_within, at_top, checking, loop_top, loop_reply,
}
use libre_ping.Directory.Steps.{
  World, announce, top, reply, Reachable, fresh, step, started, resumed, IsCoalesced, one_verifier,
}
use libre_ping.Directory.Verified.{listed_are_confirmed}
use libre_ping.Admit.{result, missing}
use libre_ping.Admit.Window.{IsSane, Agrees, result_iff}
use libre_ping.Assign.{Probe}
use libre_ping.Protocol.{check_http}
use libre_ping.Failover.{new_failover_client, discover}
use libre_ping.Failover.Pool.{IsPool, Extends, new_failover_client-IsPool, discover-IsPool}
use libre_ping.Tests.{toy, early, late, three_hubs}

abbrev h1 : Hub
h1 = record { id = codes "h"; capacity = pos 5; archive = false }

abbrev h2 : Hub
h2 = record { id = codes "h2"; capacity = pos 9; archive = false }

distinct : (a b : Hub) → In a (h1 ∷ h2 ∷ []) → In b (h1 ∷ h2 ∷ []) → a.id ≡ b.id → a ≡ b
distinct a b (inl i) (inl j) e = sym i ∙ j
distinct a b (inl i) (inr (inl j)) e = absurd (
    let k = ap (λ h. length h.id) i ∙ ap length e ∙ sym (ap (λ h. length h.id) j) in
    omega (arith, k))
distinct a b (inl i) (inr (inr j)) e = elim j [ ]
distinct a b (inr (inl i)) (inl j) e = absurd (
    let k = ap (λ h. length h.id) i ∙ ap length e ∙ sym (ap (λ h. length h.id) j) in
    omega (arith, k))
distinct a b (inr (inl i)) (inr (inl j)) e = sym i ∙ j
distinct a b (inr (inl i)) (inr (inr j)) e = elim j [ ]
distinct a b (inr (inr i)) j e = elim i [ ]

holders-perm_example :
    Permᴰ
      (holders toy whole insertion 3 (h1 ∷ h2 ∷ []) (pos 1))
      (holders toy whole insertion 3 (h2 ∷ h1 ∷ []) (pos 1))
holders-perm_example =
    holders-perm toy whole insertion 3 (h1 ∷ h2 ∷ []) (h2 ∷ h1 ∷ []) (pos 1) distinct
      (Permᴰ.swap refl refl)

holds_iff_example :
    (holds toy
        (some
          (update new_set false (assigned_shards toy whole insertion h2.id three_hubs (pos 1)) []))
        (codes "c1")
      ≡ true)
    ↔ (In h2.id (holders toy whole insertion (of toy (codes "c1")) three_hubs (pos 1))
        ⊎ (get {V = Bool} str_dec (codes "c1") [] ≡ some true))
holds_iff_example =
    holds_iff toy whole insertion new_set h2.id three_hubs (pos 1) [] (codes "c1") (λ e. cc)

abbrev small_outbox : Outbox
small_outbox = record {
  items = record { sr = early; at = pos 1 } ∷ [];
  max_n = pos 2;
  max_age = pos 10;
}

abbrev two_items : List Item
two_items = record { sr = late; at = pos 8 } ∷ record { sr = early; at = pos 9 } ∷ []

-- A hub announces itself, its verifier starts, checks the URL and is told that it is right.
abbrev peer : HubAnnouncement
peer = record zero_announcement { hub_id = codes "h2"; public_url = codes "https://h2" }

abbrev pub empty : Directory
empty = record { entries = []; verifying = []; ttl = pos 100; self_id = codes "h1" }

-- A check of a URL answers the hub of the announcement.
abbrev AnswersPeer : Str → Str → Type 0
AnswersPeer url id = (url ≡ peer.public_url) × (id ≡ peer.hub_id)

abbrev announced : World
announced = record {
  dir = (add peer (pos 1) empty).0;
  loops = started peer.hub_id (add peer (pos 1) empty).1 ++ [];
}

announced-Reachable : Reachable insertion AnswersPeer (codes "h1") (pos 100) announced
announced-Reachable = step _ announced fresh (announce empty [] peer (pos 1))

announced_waits :
    announced
    ≡ record { dir = (add peer (pos 1) empty).0; loops = [] ++ ((peer.hub_id, at_top) ∷ []) }
unfolding add get str_dec
announced_waits = refl

abbrev checking_world : World
checking_world = record {
  dir = (loop_top peer.hub_id (add peer (pos 1) empty).0).0;
  loops = [] ++ (resumed peer.hub_id (loop_top peer.hub_id (add peer (pos 1) empty).0).1 ++ []);
}

checking-Reachable : Reachable insertion AnswersPeer (codes "h1") (pos 100) checking_world
checking-Reachable =
    step _ checking_world
      (subst (Reachable insertion AnswersPeer (codes "h1") (pos 100)) announced_waits
        announced-Reachable)
      (top (add peer (pos 1) empty).0 [] [] peer.hub_id)

abbrev checking_dir : Directory
checking_dir = (loop_top peer.hub_id (add peer (pos 1) empty).0).0

checking_waits :
    checking_world
    ≡ record { dir = checking_dir; loops = [] ++ ((peer.hub_id, checking peer.public_url) ∷ []) }
unfolding add get put str_dec loop_top
checking_waits = refl

abbrev pub verified_world : World
verified_world = record {
  dir = (loop_reply peer.hub_id peer.public_url true checking_dir).0;
  loops =
      []
      ++ (resumed peer.hub_id (loop_reply peer.hub_id peer.public_url true checking_dir).1 ++ []);
}

verified-Reachable : Reachable insertion AnswersPeer (codes "h1") (pos 100) verified_world
verified-Reachable =
    step _ verified_world
      (subst (Reachable insertion AnswersPeer (codes "h1") (pos 100)) checking_waits
        checking-Reachable)
      (reply checking_dir [] [] peer.hub_id peer.public_url true (λ e. (refl, refl)))

listed_are_confirmed_example :
    All (λ a. AnswersPeer a.public_url a.hub_id) (list insertion (pos 5) verified_world.dir).1
    × All
        (λ a. AnswersPeer a.public_url a.hub_id)
        (active_within (pos 5) (pos 60) verified_world.dir)
listed_are_confirmed_example =
    listed_are_confirmed AnswersPeer insertion (codes "h1") (pos 100) (pos 5) (pos 60)
      verified_world verified-Reachable

one_verifier_example : IsCoalesced announced
one_verifier_example = one_verifier announced announced-Reachable

result_iff_example :
    (result (some (λ id. missing)) early (pos 1000000) ≡ ok tt)
    ↔ (IsSane early (pos 1000000) × Agrees (some (λ id. missing)) early)
result_iff_example =
    result_iff (some (λ id. missing)) early (pos 1000000) (omega arith) (omega arith)

-- A probe that runs two checks a minute, and one without a cap.
abbrev two_probes : List Probe
two_probes =
    record { id = codes "p"; capacity = pos 2; supported_types = [] }
    ∷ record { id = codes "q1"; capacity = pos 0; supported_types = (check_http, true) ∷ [] }
    ∷ []

discover-IsPool_example :
    IsPool (
      discover
        (new_failover_client (codes "https://h1" ∷ []) true)
        (some (codes "https://h2" ∷ codes "https://h1" ∷ [])))
    × Extends (new_failover_client (codes "https://h1" ∷ []) true) (
        discover
          (new_failover_client (codes "https://h1" ∷ []) true)
          (some (codes "https://h2" ∷ codes "https://h1" ∷ [])))
discover-IsPool_example =
    discover-IsPool (new_failover_client (codes "https://h1" ∷ []) true)
      (some (codes "https://h2" ∷ codes "https://h1" ∷ []))
      (new_failover_client-IsPool (codes "https://h1" ∷ []) true)
