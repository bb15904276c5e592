-- ===== src/Remote/Restoring.antt =====
-- What a restored database is.
use sas_tests.Prelude.{
  if◌then◌else◌, Bool-cases, ok, ℕ, String, ◌≡◌, refl, ap, ◌∙◌, inl, inr, Bool, true, ◌&&◌, Option,
  some, List,
}
use sas_tests.Remote.{
  Host, Backend, World, Reply, run, exec, ensure_connected, then_do, connect_kwargs, db_path,
  backup_path,
}
use sas_tests.Remote.Calls.{
  systemctl, cp_command, stop_backend, start_backend, backup_database, restore_database,
}
use sas_tests.Remote.Isolation.{taken_after, snapshot, restore}

module _ {ℓ} {M : Type ℓ} (h : Host M) (b : Backend) (file : String → M → Option (List ℕ))
    (answers : (command : String) (m : M) → (r : Reply) × ((h.exec command m).0 ≡ ok r))
    (dials : (m : M) → (h.dial (connect_kwargs b) m).0 ≡ ok tt) where
  -- The machine as `_exec` finds it.
  abbrev pub reached : World M → M
  reached w =
      if w.opened && h.alive w.machine then w.machine else (h.dial (connect_kwargs b) w.machine).1

  ensure_connected_lem :
      (w : World M)
      → ensure_connected h b w ≡ (ok tt, record { opened = true; machine = reached w })
  unfolding ensure_connected
  ensure_connected_lem w = elim (Bool-cases w.opened) [
    | inl o ↦ elim (Bool-cases (h.alive w.machine)) [
      | inl a ↦ simp (o, a) (ap (λ x. (ok tt, record { opened = x; machine = w.machine })) o)
      | inr a ↦ simp (o, a, dials w.machine)
    ]
    | inr o ↦ simp (o, dials w.machine)
  ]

  run_lem :
      (command : String) (w : World M)
      → run h b command w
        ≡ (ok tt, record { opened = true; machine = (h.exec command (reached w)).1 })
  unfolding run exec then_do
  run_lem command w = let (r, e) = answers command (reached w) in simp (ensure_connected_lem w, e)

  -- The machine on which `restore` starts the service.
  abbrev pub restored : World M → M
  restored w =
      let stopped = (h.exec (systemctl "stop") (reached w)).1 in
      (h.exec (cp_command backup_path db_path)
        (reached (record { opened = true; machine = stopped }))).1

  restore_lem :
      (w : World M)
      → restore h b true w ≡ start_backend h b (record { opened = true; machine = restored w })
  unfolding restore stop_backend restore_database then_do
  restore_lem w =
      let stopped = (h.exec (systemctl "stop") (reached w)).1 in
      simp (
        run_lem (systemctl "stop") w,
        run_lem (cp_command backup_path db_path) (record { opened = true; machine = stopped }),
      )

  module _
      (dial_keeps : (p : String) (m : M) → file p (h.dial (connect_kwargs b) m).1 ≡ file p m) where
    reached-file : (p : String) (w : World M) → file p (reached w) ≡ file p w.machine
    reached-file p w = elim (Bool-cases (w.opened && h.alive w.machine)) [
      | inl e ↦ simp e
      | inr e ↦ simp (e, dial_keeps p w.machine)
    ]

    -- The backup is still there when it is copied back.
    backup_kept :
        ((m : M) → file backup_path (h.exec (systemctl "stop") m).1 ≡ file backup_path m)
        → (w : World M)
        → let stopped = (h.exec (systemctl "stop") (reached w)).1 in
          file backup_path (reached (record { opened = true; machine = stopped }))
          ≡ file backup_path w.machine
    backup_kept stop_keeps w =
        let stopped = (h.exec (systemctl "stop") (reached w)).1 in
        reached-file backup_path (record { opened = true; machine = stopped })
        ∙ stop_keeps (reached w)
        ∙ reached-file backup_path w

  module _ (dial_keeps : (p : String) (m : M) → file p (h.dial (connect_kwargs b) m).1 ≡ file p m)
      (copies_back : (m : M)
        → file db_path (h.exec (cp_command backup_path db_path) m).1 ≡ file backup_path m)
      (stop_keeps : (m : M)
        → file backup_path (h.exec (systemctl "stop") m).1 ≡ file backup_path m) where
    module _
        (copies : (m : M)
          → file backup_path (h.exec (cp_command db_path backup_path) m).1 ≡ file db_path m) where
      snapshot_lem :
          (taken : Bool) (w : World M)
          → (s : World M) × ((snapshot h b taken w ≡ (ok tt, true, s))
              × (file backup_path s.machine ≡ file db_path w.machine))
      unfolding snapshot backup_database
      snapshot_lem taken w =
          let m = (h.exec (cp_command db_path backup_path) (reached w)).1 in
          (
            record { opened = true; machine = m },
            (
              ap (taken_after taken) (run_lem (cp_command db_path backup_path) w),
              copies (reached w) ∙ reached-file dial_keeps db_path w,
            ),
          )

      -- If the link and the commands can be had, dialling changes no file, `cp` copies, and stopping
      -- the service leaves the copy alone, then after a `snapshot`, and whatever is done that leaves
      -- the copy alone, `restore` starts the service on a machine whose database is the one that the
      -- snapshot was taken of.
      pub restore-snapshot :
          (taken : Bool) (w w' : World M)
          → file backup_path w'.machine ≡ file backup_path (snapshot h b taken w).2.machine
          → let r = snapshot h b taken w in
            (r.0 ≡ ok tt)
            × ((m : World M) × ((restore h b r.1 w' ≡ start_backend h b m)
                  × (file db_path m.machine ≡ file db_path w.machine)))
      restore-snapshot taken w w' =
          let (s, (e, copied)) = snapshot_lem taken w in
          let stopped = (h.exec (systemctl "stop") (reached w')).1 in
          let db =
            copies_back (reached (record { opened = true; machine = stopped }))
            ∙ backup_kept dial_keeps stop_keeps w' in
          rw e (λ kept. (
            refl,
            (record { opened = true; machine = restored w' }, (restore_lem w', db ∙ kept ∙ copied)),
          ))

  module _ (dial_keeps : (p : String) (m : M) → file p (h.dial (connect_kwargs b) m).1 ≡ file p m)
      (copies_back : (bytes : List ℕ) (m : M)
        → file backup_path m ≡ some bytes
        → file db_path (h.exec (cp_command backup_path db_path) m).1 ≡ some bytes)
      (stop_keeps : (m : M) → file backup_path (h.exec (systemctl "stop") m).1 ≡ file backup_path m)
      (fails : (m : M)
        → file backup_path (h.exec (cp_command db_path backup_path) m).1 ≡ file backup_path m) where
    -- If the link and the commands can be had, dialling changes no file, stopping the service leaves
    -- the backup alone and `cp` copies a backup that exists back, but the `cp` of the snapshot fails
    -- and leaves what was at the path of the backup, then `snapshot` returns all the same and counts
    -- as taken; and where there was a file at the path of the backup before the snapshot, `restore`,
    -- after whatever is done that leaves that file alone, starts the service on that file in place of
    -- the database.
    pub restore-snapshot_failed :
        (taken : Bool) (w w' : World M) (stale : List ℕ)
        → file backup_path w.machine ≡ some stale
        → file backup_path w'.machine ≡ file backup_path (snapshot h b taken w).2.machine
        → let r = snapshot h b taken w in
          (r.0 ≡ ok tt)
          × ((r.1 ≡ true)
              × ((m : World M) × ((restore h b r.1 w' ≡ start_backend h b m)
                    × (file db_path m.machine ≡ some stale))))
    unfolding snapshot backup_database
    restore-snapshot_failed taken w w' stale there =
        let e = ap (taken_after taken) (run_lem (cp_command db_path backup_path) w) in
        let left = fails (reached w) ∙ reached-file dial_keeps backup_path w ∙ there in
        let stopped = (h.exec (systemctl "stop") (reached w')).1 in
        let back = copies_back stale (reached (record { opened = true; machine = stopped })) in
        rw e (λ kept. (
          refl,
          (
            refl,
            (
              record { opened = true; machine = restored w' },
              (restore_lem w', back (backup_kept dial_keeps stop_keeps w' ∙ kept ∙ left)),
            ),
          ),
        ))
