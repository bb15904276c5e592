-- ===== src/Curve/Runs.antt =====
-- What `analyze` reports.
use sas_tests.Prelude.{
  if◌then◌else◌, Bool-cases, length, All, zero_division, ok, raised, ℕ, ◌+◌, ◌≡◌, refl, sym, ap,
  ◌∙◌, ◌⊎◌, inl, inr, Bool, true, false, some, List, [], ◌∷◌, ◌++◌, append-nil, append_assoc, arith,
}
use mathlib.Core.Path.{subst}
use sas_tests.Curve.{Counted, dt, count_runs, last_of, Report, analyze}

abbrev pub total : List ℕ → ℕ
total [] = 0
total (n ∷ ns) = n + total ns

-- A packet: its first sample and the others.
abbrev pub Packet : Type 0 → Type 0
Packet T = T × List T

abbrev pub samples {ℓ} : {T : Type ℓ} → List (T × List T) → List T
samples [] = []
samples ((a, xs) ∷ ps) = a ∷ (xs ++ samples ps)

abbrev pub sizes {ℓ} : {T : Type ℓ} → List (T × List T) → List ℕ
sizes [] = []
sizes ((a, xs) ∷ ps) = (1 + length xs) ∷ sizes ps

module _ {T : Type 0} (minus : T → T → T) (thousandfold : T → T) (below_3 is_zero : T → Bool) where
  -- Each sample is less than 3 ms after the one before.
  abbrev pub Linked : T → List T → Type 0
  Linked a [] = Unit {0}
  Linked a (b ∷ bs) = (below_3 (thousandfold (minus b a)) ≡ true) × Linked b bs

  -- The time from the last sample of each packet to the first of the next is a gap, and not less than
  -- 3 ms; and there are no other gaps.
  abbrev pub Parted : Packet T → List (Packet T) → List T → Type 0
  Parted p [] gaps = gaps ≡ []
  Parted p (q ∷ ps) [] = ⊥
  Parted p (q ∷ ps) (g ∷ gs) =
      ((g ≡ thousandfold (minus q.0 (last_of p.0 p.1))) × (below_3 g ≡ false)) × Parted q ps gs

  -- Packets of a curve, with the gaps between them.
  abbrev pub ArePackets : List T → List (Packet T) → List T → Type 0
  ArePackets ts [] gaps = ⊥
  ArePackets ts (p ∷ ps) gaps =
      (ts ≡ samples (p ∷ ps)) × (All (λ q. Linked q.0 q.1) (p ∷ ps) × Parted p ps gaps)

  -- The rest of the first packet, and the other packets.
  unfoldable packets_from : T → List T → List T × List (Packet T)
  packets_from a [] = ([], [])
  packets_from a (t ∷ ts) =
      let (rest, ps) = packets_from t ts in
      if below_3 (dt minus thousandfold below_3 is_zero a t)
      then (t ∷ rest, ps)
      else ([], (t, rest) ∷ ps)

  unfoldable gaps_from : T → List T → List T
  gaps_from a [] = []
  gaps_from a (t ∷ ts) =
      let rest = gaps_from t ts in
      let d = dt minus thousandfold below_3 is_zero a t in if below_3 d then rest else d ∷ rest

  -- What the loop adds.
  count_runs_lem :
      (a : T) (ts : List T) (c : Counted T)
      → let c' = count_runs minus thousandfold below_3 is_zero a ts c in
        let (rest, ps) = packets_from a ts in
        (c'.runs ++ c'.run ∷ [] ≡ c.runs ++ (c.run + length rest) ∷ sizes ps)
        × (c'.gaps ≡ c.gaps ++ gaps_from a ts)
  unfolding count_runs packets_from gaps_from
  count_runs_lem a [] c = (ap (λ n. c.runs ++ n ∷ []) (omega arith), sym (append-nil c.gaps))
  count_runs_lem a (t ∷ ts) c =
      let (rest, ps) = packets_from t ts in
      let d = dt minus thousandfold below_3 is_zero a t in
      elim (Bool-cases (below_3 d)) [
        | inl near ↦
            (let (runs, gaps) = count_runs_lem t ts (record c { run = c.run + 1 }) in
              rw near (runs ∙ ap (λ n. c.runs ++ n ∷ sizes ps) (omega arith), gaps))
        | inr far ↦
            (let (runs, gaps) =
                count_runs_lem t ts
                  (record { runs = c.runs ++ c.run ∷ []; gaps = c.gaps ++ d ∷ []; run = 1 }) in
              rw far (
                runs
                    ∙ append_assoc c.runs (c.run ∷ []) ((1 + length rest) ∷ sizes ps)
                    ∙ ap (λ n. c.runs ++ n ∷ (1 + length rest) ∷ sizes ps) (omega arith),
                gaps ∙ append_assoc c.gaps (d ∷ []) (gaps_from t ts),
              ))
      ]

  longer_packet :
      (a t : T) (rest : List T) (ps : List (Packet T)) (gs : List T)
      → Parted (t, rest) ps gs
      → Parted (a, t ∷ rest) ps gs
  unfolding last_of
  longer_packet a t rest [] gs h = h
  longer_packet a t rest (q ∷ ps) [] h = h
  longer_packet a t rest (q ∷ ps) (g ∷ gs) h = h

  packets_from-ArePackets :
      (a : T) (ts : List T)
      → let (rest, ps) = packets_from a ts in ArePackets (a ∷ ts) ((a, rest) ∷ ps) (gaps_from a ts)
  unfolding packets_from gaps_from last_of
  packets_from-ArePackets a [] = (refl, ((tt, tt), refl))
  packets_from-ArePackets a (t ∷ ts) =
      let (rest, ps) = packets_from t ts in
      let (all, (linked, parted)) = packets_from-ArePackets t ts in
      let d = dt minus thousandfold below_3 is_zero a t in
      elim (Bool-cases (below_3 d)) [
        | inl near ↦ rw near (
          ap (λ l. a ∷ l) all,
          (((near, linked.0), linked.1), longer_packet a t rest ps (gaps_from t ts) parted),
        )
        | inr far ↦ rw far (ap (λ l. a ∷ l) all, ((tt, linked), ((refl, far), parted)))
      ]

  -- Of a curve of two samples or more, `analyze` raises ZeroDivisionError just where the time from the
  -- first sample to the last is zero. Else it reports as many samples as the curve has, and the sizes
  -- of packets that make up the curve, in their order: within a packet each sample is less than 3 ms
  -- after the one before, and the gaps that it reports are the times from the last sample of a packet
  -- to the first of the next, none of which is less than 3 ms.
  pub analyze_lem :
      (t u : T) (us : List T)
      → let span = minus (last_of u us) t in
        ((is_zero span ≡ true)
          × (analyze minus thousandfold below_3 is_zero (t ∷ u ∷ us) ≡ raised zero_division))
        ⊎ ((is_zero span ≡ false)
            × ((r : Report T) × ((analyze minus thousandfold below_3 is_zero (t ∷ u ∷ us)
                    ≡ ok (some r))
                  × ((r.points ≡ length us + 2)
                      × ((r.span ≡ span)
                          × ((ps : List (Packet T)) × ((r.runs ≡ sizes ps)
                                × ArePackets (t ∷ u ∷ us) ps r.gaps)))))))
  unfolding analyze last_of
  analyze_lem t u us =
      let span = minus (last_of u us) t in
      let c =
        count_runs minus thousandfold below_3 is_zero t (u ∷ us)
          (record { runs = []; gaps = []; run = 1 }) in
      let (runs, gaps) = count_runs_lem t (u ∷ us) (record { runs = []; gaps = []; run = 1 }) in
      let (rest, ps) = packets_from t (u ∷ us) in
      elim (Bool-cases (is_zero span)) [
        | inl e ↦ inl (e, rw e refl)
        | inr e ↦ inr (
          e,
          (
            record {
              points = length (t ∷ u ∷ us);
              span = span;
              runs = c.runs ++ c.run ∷ [];
              gaps = c.gaps;
            },
            (
              rw e refl,
              (
                omega arith,
                (
                  refl,
                  (
                    (t, rest) ∷ ps,
                    (
                      runs,
                      subst (λ gs. ArePackets (t ∷ u ∷ us) ((t, rest) ∷ ps) gs) (sym gaps)
                          (packets_from-ArePackets t (u ∷ us)),
                    ),
                  ),
                ),
              ),
            ),
          ),
        )
      ]
