-- ===== src/Manager/Notifications/Account.antt =====
-- The manager's record of its subscriptions against the calls that it made.
use home_assistant_bluetooth.Prelude.{
  ◌≡◌, refl, Bool, true, false, ◌&&◌, ◌||◌, not, Option, List, [], ◌∷◌, ◌++◌, text_eq, ◌==◌, arith,
  Text, Bool-cases, inl, inr, text_beq_iff, ◌∙◌, ap,
}
use home_assistant_bluetooth.Prelude.Bytes.{Bytes}
use home_assistant_bluetooth.Prelude.Dict.{contains, add, discard, contains-add, contains-discard}
use home_assistant_bluetooth.Manager.State.{Manager}
use home_assistant_bluetooth.Manager.Notifications.{
  Reply, Call, start_notify, stop_notify, is_live, drop_cached, subscribed, failed,
  capture_initial_cached_value, start_round, start_loop, start_notifications, stop_calls,
  stop_notifications,
}

-- The subscriptions that BlueZ holds for the manager after the calls: a call that fails changes none.
unfoldable pub held : List Call → List Text → List Text
held [] paths = paths
held (start_notify path true ∷ calls) paths = held calls (add paths path)
held (start_notify path false ∷ calls) paths = held calls paths
held (stop_notify path true ∷ calls) paths = held calls (discard paths path)
held (stop_notify path false ∷ calls) paths = held calls paths

held-append : (a b : List Call) (paths : List Text) → held (a ++ b) paths ≡ held b (held a paths)
unfolding held
held-append [] b paths = refl
held-append (start_notify path true ∷ a) b paths = held-append a b (add paths path)
held-append (start_notify path false ∷ a) b paths = held-append a b paths
held-append (stop_notify path true ∷ a) b paths = held-append a b (discard paths path)
held-append (stop_notify path false ∷ a) b paths = held-append a b paths

-- The paths whose StopNotify failed.
unfoldable pub stranded : List Call → List Text
stranded [] = []
stranded (stop_notify path false ∷ calls) = path ∷ stranded calls
stranded (call ∷ calls) = stranded calls

stranded-append : (a b : List Call) → stranded a ≡ [] → stranded (a ++ b) ≡ stranded b
unfolding stranded
stranded-append [] b e = refl
stranded-append (start_notify path o ∷ a) b e = stranded-append a b e
stranded-append (stop_notify path true ∷ a) b e = stranded-append a b e
stranded-append (stop_notify path false ∷ a) b e = cc

-- What BlueZ holds after the calls is what is recorded, and what no StopNotify could release.
abbrev pub Accounts : List Call → List Text → List Text → Type 0
Accounts calls before after =
    (path : Text)
    → contains (held calls before) path ≡ (contains after path || contains (stranded calls) path)

-- The same members.
abbrev pub Agrees : List Text → List Text → Type 0
Agrees s t = (path : Text) → contains s path ≡ contains t path

held-Agrees :
    (calls : List Call) (s t : List Text) → Agrees s t → Agrees (held calls s) (held calls t)
unfolding held
held-Agrees [] s t a = a
held-Agrees (start_notify path true ∷ calls) s t a =
    held-Agrees calls (add s path) (add t path)
      (λ p. ground (arith, contains-add s path p, contains-add t path p, a p))
held-Agrees (start_notify path false ∷ calls) s t a = held-Agrees calls s t a
held-Agrees (stop_notify path false ∷ calls) s t a = held-Agrees calls s t a
held-Agrees (stop_notify path true ∷ calls) s t a =
    held-Agrees calls (discard s path) (discard t path)
      (λ p. ground (arith, contains-discard s path p, contains-discard t path p, a p))

-- No callback that runs while a call waits changes the record of the subscriptions: no disconnect.
abbrev pub Steady : (Text → Reply) → Type 0
Steady reply =
    (path : Text) (m : Manager)
    → (((reply path).during_start m).notification_paths ≡ m.notification_paths)
      × (((reply path).during_stop m).notification_paths ≡ m.notification_paths)

stop_calls-held :
    (reply : Text → Reply) (paths s : List Text) (p : Text)
    → contains (held (stop_calls reply paths) s) p
      ≡ (contains s p && not (contains paths p && (reply p).stop_success))
unfolding stop_calls held contains
stop_calls-held reply [] s p = ground arith
stop_calls-held reply (path ∷ paths) s p =
    let same : (path == p) ≡ true → (reply path).stop_success ≡ (reply p).stop_success =
      λ hit. ap (λ q. (reply q).stop_success) ((text_beq_iff path p).0 hit) in
    elim (Bool-cases (reply path).stop_success) [
      | inl e ↦ rw e (
          ground (
            arith,
            same,
            e,
            stop_calls-held reply paths (discard s path) p,
            contains-discard s path p,
          ))
      | inr e ↦ rw e (ground (arith, same, e, stop_calls-held reply paths s p))
    ]

module _ (bus_ready : Bool) (cached_value : Text → Option Bytes) (reply : Text → Reply) where
  captured :
      (path : Text) (m : Manager)
      → (capture_initial_cached_value bus_ready cached_value reply path m).notification_paths
        ≡ m.notification_paths
  unfolding capture_initial_cached_value drop_cached
  captured path m = ground arith

  start_round-Accounts :
      (path : Text) (m : Manager)
      → Steady reply
      → Accounts
          (start_round bus_ready cached_value reply path m).calls
          m.notification_paths
          (start_round bus_ready cached_value reply path m).manager.notification_paths
  unfolding start_round held stranded contains drop_cached subscribed failed
  start_round-Accounts path m steady p =
      let taken = capture_initial_cached_value bus_ready cached_value reply path m in
      let waited = (reply path).during_start taken in
      let kept : contains waited.notification_paths p ≡ contains m.notification_paths p =
        ap (λ s. contains s p) ((steady path taken).0 ∙ captured path m) in
      let dropped : contains ((reply path).during_stop (drop_cached path waited)).notification_paths
            p
          ≡ contains waited.notification_paths p =
        ap (λ s. contains s p) (steady path (drop_cached path waited)).1 in
      let absent : (path == p) ≡ true
          → contains m.notification_paths path ≡ contains m.notification_paths p =
        λ hit. ap (λ q. contains m.notification_paths q) ((text_beq_iff path p).0 hit) in
      elim (Bool-cases (is_live m)) [
        | inr a ↦ rw a (ground arith)
        | inl a ↦ elim (Bool-cases (contains m.notification_paths path)) [
          | inl b ↦ rw (a, b) (ground arith)
          | inr b ↦ elim (Bool-cases (reply path).success) [
            | inr c ↦ rw (a, b, c) (ground (arith, kept))
            | inl c ↦ elim (Bool-cases (is_live waited)) [
              | inl d ↦
                  rw (a, b, c, d)
                    (ground (
                      arith,
                      kept,
                      contains-add m.notification_paths path p,
                      contains-add waited.notification_paths path p,
                    ))
              | inr d ↦ elim (Bool-cases (reply path).stop_success) [
                | inl e ↦
                    rw (a, b, c, d, e)
                      (ground (
                        arith,
                        kept,
                        dropped,
                        contains-discard (add m.notification_paths path) path p,
                        contains-add m.notification_paths path p,
                        absent,
                      ))
                | inr e ↦
                    rw (a, b, c, d, e)
                      (ground (arith, kept, dropped, contains-add m.notification_paths path p))
              ]
            ]
          ]
        ]
      ]

  -- A round that does not end the loop releases nothing.
  start_round-goes_on :
      (path : Text) (m : Manager)
      → (start_round bus_ready cached_value reply path m).goes_on ≡ true
      → stranded (start_round bus_ready cached_value reply path m).calls ≡ []
  unfolding start_round stranded
  start_round-goes_on path m goes = ground arith

  start_loop-Accounts :
      (paths : List Text) (m : Manager)
      → Steady reply
      → Accounts
          (start_loop bus_ready cached_value reply paths m).1
          m.notification_paths
          (start_loop bus_ready cached_value reply paths m).0.notification_paths
  unfolding start_loop held stranded contains
  start_loop-Accounts [] m steady p = ground arith
  start_loop-Accounts (path ∷ paths) m steady p =
      let round = start_round bus_ready cached_value reply path m in
      let first = start_round-Accounts path m steady in
      let rest = start_loop bus_ready cached_value reply paths round.manager in
      elim (Bool-cases round.goes_on) [
        | inr stops ↦ rw stops (first p)
        | inl goes ↦
            let none_left = start_round-goes_on path m goes in
            let same =
              held-Agrees rest.1 (held round.calls m.notification_paths)
                round.manager.notification_paths
                (λ q. ground (arith, first q, ap (λ t. contains t q) none_left)) p in
            rw
              (
                goes,
                held-append round.calls rest.1 m.notification_paths,
                stranded-append round.calls rest.1 none_left,
              )
              (same ∙ start_loop-Accounts paths round.manager steady p)
      ]

  -- After the start of the notifications BlueZ holds for the manager exactly what the manager has
  -- recorded, and beyond it only the paths whose StopNotify failed: whichever calls fail and whenever the
  -- connection is given up, as long as no disconnect clears the record while a call waits.
  pub start_notifications-Accounts :
      (paths : List Text) (m : Manager)
      → Steady reply
      → Accounts
          (start_notifications bus_ready cached_value reply paths m).1
          m.notification_paths
          (start_notifications bus_ready cached_value reply paths m).0.notification_paths
  unfolding start_notifications held stranded contains
  start_notifications-Accounts paths m steady p =
      elim (Bool-cases (not bus_ready || not (is_live m))) [
        | inl a ↦ rw a (ground arith)
        | inr a ↦ rw a (start_loop-Accounts paths m steady p)
      ]

  -- On a live connection the stop of the notifications leaves in BlueZ exactly those of the recorded
  -- subscriptions whose StopNotify fails, and always an empty record.
  pub stop_notifications-releases :
      (m : Manager) (p : Text)
      → bus_ready ≡ true
      → m.connected ≡ true
      → ((stop_notifications bus_ready cached_value reply m).0.notification_paths ≡ [])
        × (contains
              (held (stop_notifications bus_ready cached_value reply m).1 m.notification_paths)
              p
            ≡ (contains m.notification_paths p && not (reply p).stop_success))
  unfolding stop_notifications
  stop_notifications-releases m p b c = (
    refl,
    rw (b, c) (stop_calls-held reply m.notification_paths m.notification_paths p ∙ ground arith),
  )
