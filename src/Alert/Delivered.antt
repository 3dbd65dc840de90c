-- ===== src/Alert/Delivered.antt =====
-- The deliveries of the engine of hub/alert/alert.go.
use libre_ping.Base.{
  ◌≡◌, refl, ap, ◌∙◌, ◌≢◌, ◌⊎◌, inl, inr, Bool, true, Option, some, List, [], map, Bool-cases,
  Option-cases, In, All, ℤ, Str, Bytes, str_dec, Map, get, eqb_yes,
}
use libre_ping.Base.Maps.{In-keys_of}
use mathlib.Core.List.{Permᴰ}
use libre_ping.Identity.{Crypto}
use libre_ping.Protocol.{ResultContent, Status, AlertRule}
use libre_ping.Protocol.Verify.{Json}
use libre_ping.Protocol.Owner.{rule_id}
use libre_ping.Store.Alerts.{MemAlerts, get_delivery_by, merge_delivery}
use libre_ping.Store.Alerts.Deliveries.{IsBefore}
use libre_ping.Alert.{responsible_among}
use libre_ping.Alert.Winner.{responsible_among-perm, responsible_among_iff, winner_unique, IsWinner}
use libre_ping.Alert.Observed.{or_empty, corroborated_status}
use libre_ping.Alert.Engine.{
  Notification, Engine, status_or_up, bind, decrypt, delivered_status, notification, deliver,
  candidates, evaluate_rule,
}
use libre_ping.Alert.Recorded.{merged_delivered}

module _ (c : Crypto) (json : Json) (decode_base64 : Str → Option Bytes) where
  -- The send succeeded: there is a notifier, the destination opens, and the notifier says so.
  pub record Sent (e : Engine) (rule : AlertRule) (status : Status) (latest : Map Str ResultContent)
      (at_ms : ℤ) : Type 0 where
    pub notify : Notification → Bool
    pub dest : Str
    pub has_notifier : e.notifiers rule.channel ≡ some notify
    pub opens : decrypt c json decode_base64 e rule ≡ some dest
    pub accepted : notify (notification c json decode_base64 rule dest status latest at_ms) ≡ true

  decrypt-recipient :
      (e : Engine) (rule : AlertRule) (dest : Str)
      → decrypt c json decode_base64 e rule ≡ some dest
      → In e.self (map (λ r. r.0) rule.recipients)
  unfolding decrypt
  decrypt-recipient e rule dest h = elim (Option-cases (get str_dec e.self rule.recipients)) [
    | inl q ↦ absurd (elim (Option-cases e.opener) [
      | inl o ↦ let k = rw (o) at h in cc
      | inr (f, o) ↦ let k = rw (o, bind, q) at h in cc
    ])
    | inr (b64, q) ↦ In-keys_of str_dec e.self b64 rule.recipients q
  ]

  -- The alert store changes only by a send that succeeded: whatever fails leaves it as it was, so
  -- the next pass tries again.
  pub deliver_changes :
      (e : Engine) (m : MemAlerts) (rule : AlertRule) (status : Status)
      → (latest : Map Str ResultContent) (at_ms ts : ℤ)
      → ((deliver c json decode_base64 e m rule status latest at_ms ts).0 ≡ m)
        ⊎ Sent e rule status latest at_ms
  unfolding deliver
  deliver_changes e m rule status latest at_ms ts = elim (Option-cases (e.notifiers rule.channel)) [
    | inl q ↦ inl (rw (deliver, q) refl)
    | inr (notify, q) ↦ elim (Option-cases (decrypt c json decode_base64 e rule)) [
      | inl r ↦ inl (rw (deliver, q, r) refl)
      | inr (dest, r) ↦
          elim (Bool-cases
            (notify (notification c json decode_base64 rule dest status latest at_ms))) [
              | inl t ↦ inr (record {
                notify = notify;
                dest = dest;
                has_notifier = q;
                opens = r;
                accepted = t;
              })
              | inr f ↦ inl (rw (deliver, q, r, f) refl)
            ]
    ]
  ]

  deliver-Sent :
      (e : Engine) (m : MemAlerts) (rule : AlertRule) (status : Status)
      → (latest : Map Str ResultContent) (at_ms ts : ℤ) → Sent e rule status latest at_ms
      → (deliver c json decode_base64 e m rule status latest at_ms ts).0
        ≡ (merge_delivery m
            (rule_id c rule)
            (record { status = status; hub_id = e.self; timestamp_ms = ts })).0
  unfolding deliver
  deliver-Sent e m rule status latest at_ms ts sent =
      rw (deliver, sent.has_notifier, sent.opens, sent.accepted) refl

  -- After a send that succeeded, at a time after every delivery of the rule that the recipients
  -- are known for, the status counts as the delivered one.
  pub delivered_status-deliver :
      (e : Engine) (m : MemAlerts) (rule : AlertRule) (status : Status)
      → (latest : Map Str ResultContent) (at_ms ts : ℤ) → Sent e rule status latest at_ms
      → All (λ r. IsBefore ts (get_delivery_by m (rule_id c rule) r.0)) rule.recipients
      → delivered_status c json decode_base64
          (deliver c json decode_base64 e m rule status latest at_ms ts).0
          rule
        ≡ status
  unfolding delivered_status
  delivered_status-deliver e m rule status latest at_ms ts sent older =
      rw (deliver-Sent e m rule status latest at_ms ts sent) (
        ap status_or_up (
          merged_delivered m (rule_id c rule)
            (record { status = status; hub_id = e.self; timestamp_ms = ts }) rule.recipients
            (decrypt-recipient e rule sent.dest sent.opens) older))

  -- After a send of a status that succeeded, a pass that observes the same status sends nothing for the
  -- rule and changes nothing, whatever the peers and the results are, if the send's time is strictly
  -- after that of every delivery of the rule that was stored for one of its recipients.
  pub quiet_after_delivery :
      (e : Engine) (m : MemAlerts) (rule : AlertRule) (status : Status)
      → (latest : Map Str ResultContent) (at_ms ts now : ℤ) (times : ℤ × ℤ)
      → (peers : List Str) (by_check : Map Str (Map Str ResultContent))
      → Sent e rule status latest at_ms
      → All (λ r. IsBefore ts (get_delivery_by m (rule_id c rule) r.0)) rule.recipients
      → corroborated_status
          (or_empty (get str_dec rule.check_id by_check))
          rule.fail_locations
          rule.for_seconds
          now
        ≡ some status
      → let after = (deliver c json decode_base64 e m rule status latest at_ms ts).0 in
        evaluate_rule c json decode_base64 e peers by_check now times after rule ≡ (after, [])
  unfolding evaluate_rule
  quiet_after_delivery e m rule status latest at_ms ts now (at, t) peers by_check sent older
        observed =
      let same = delivered_status-deliver e m rule status latest at_ms ts sent older in
      elim (Bool-cases (
        responsible_among c e.self (candidates c json decode_base64 e peers rule)
          (rule_id c rule))) [
            | inl r ↦ rw (r, observed, same, eqb_yes str_dec status status refl) refl
            | inr r ↦ rw r refl
          ]

  -- Two hubs that see the same live recipients, in whatever order, never both act on a rule.
  pub one_hub_acts :
      (a b : Engine) (rule : AlertRule) (peers_a peers_b : List Str)
      → (by_a by_b : Map Str (Map Str ResultContent)) (now_a now_b : ℤ) (t_a t_b : ℤ × ℤ)
      → (m_a m_b : MemAlerts) → a.self ≢ b.self
      → ¬ In [] (candidates c json decode_base64 a peers_a rule)
      → Permᴰ
          (candidates c json decode_base64 a peers_a rule)
          (candidates c json decode_base64 b peers_b rule)
      → (evaluate_rule c json decode_base64 a peers_a by_a now_a t_a m_a rule ≡ (m_a, []))
        ⊎ (evaluate_rule c json decode_base64 b peers_b by_b now_b t_b m_b rule ≡ (m_b, []))
  unfolding evaluate_rule
  one_hub_acts a b rule peers_a peers_b by_a by_b now_a now_b (x_a, y_a) (x_b, y_b) m_a m_b apart
        named same =
      let key = rule_id c rule in
      let cs = candidates c json decode_base64 a peers_a rule in
      let ds = candidates c json decode_base64 b peers_b rule in
      elim (Bool-cases (responsible_among c a.self cs key)) [
        | inr no_a ↦ inl (rw no_a refl)
        | inl yes_a ↦ elim (Bool-cases (responsible_among c b.self ds key)) [
          | inr no_b ↦ inr (rw no_b refl)
          | inl yes_b ↦
              let b_wins : IsWinner c key b.self cs =
                (responsible_among_iff c key b.self cs named).0
                  (responsible_among-perm c key b.self same named ∙ yes_b) in
              absurd (
                apart (
                  winner_unique c key a.self b.self cs
                    ((responsible_among_iff c key a.self cs named).0 yes_a) b_wins))
        ]
      ]
