-- ===== src/Availability/Clusters.antt =====
-- What the windows of `_cluster_windows` are.
use zigbeelens.Common.{
  ℕ, ◌+◌, ◌≤◌, ◌<◌, String, ◌≡◌, refl, sym, subst, inl, inr, true, false, List, [], ◌∷◌, arith, leb,
  str_eq, eq_iff, eq_refl, elem, add, elem-add, All, Some, All-map, Bool-cases,
}
use zigbeelens.Common.Order.{IsRising}
use zigbeelens.Availability.Windows.{Event, Window, gap, cluster, cluster_windows}

-- A device's event at an instant falls in one of the windows.
abbrev pub IsIn : ℕ → String → Window → Type 0
IsIn t d w = (w.start ≤ t) × (t ≤ w.stop) × (elem d w.devices ≡ true)

abbrev pub IsCovered : List Window → Event → Type 0
IsCovered ws e = Some (IsIn e.at e.ieee) ws

-- Each window ends before the next begins, with more than the gap between them.
abbrev pub IsApart : List Window → Type 0
IsApart [] = Unit
IsApart (w ∷ ws) = (w.start ≤ w.stop) × All (λ v. w.stop + gap < v.start) ws × IsApart ws

-- Each device of a window had an event within the window.
abbrev pub IsSupported : (ℕ → String → Type 0) → Window → Type 0
IsSupported Occurs w =
    (d : String) → elem d w.devices ≡ true → (t : ℕ) × Occurs t d × (w.start ≤ t) × (t ≤ w.stop)

at : Event → ℕ
at e = e.at

cluster-late :
    (b : ℕ) (w : Window) (es : List Event)
    → b < w.start
    → All (λ e. b < e.at) es
    → All (λ v. b < v.start) (cluster w es)
unfolding cluster
cluster-late b w [] h hs = (h, tt)
cluster-late b w (e ∷ es) h hs = elim (Bool-cases (leb e.at (w.stop + gap))) [
  | inl c ↦
      rw c (cluster-late b (record w { stop = e.at; devices = add e.ieee w.devices }) es h hs.1)
  | inr c ↦
      rw c (
        h,
        cluster-late b (record { start = e.at; stop = e.at; devices = e.ieee ∷ [] }) es hs.0 hs.1,
      )
]

cluster-IsApart :
    (w : Window) (es : List Event)
    → w.start ≤ w.stop
    → All (λ e. w.stop ≤ e.at) es
    → IsRising (λ e. e.at) es
    → IsApart (cluster w es)
unfolding cluster
cluster-IsApart w [] h hs r = (h, tt, tt)
cluster-IsApart w (e ∷ es) h hs r = elim (Bool-cases (leb e.at (w.stop + gap))) [
  | inl c ↦ rw c (
      cluster-IsApart (record w { stop = e.at; devices = add e.ieee w.devices }) es
        (omega (arith, hs.0)) r.0 r.1)
  | inr c ↦ rw c (
    h,
    cluster-late (w.stop + gap) (record { start = e.at; stop = e.at; devices = e.ieee ∷ [] }) es
        (ground arith) (All-map (λ f le. ground arith) es r.0),
    cluster-IsApart (record { start = e.at; stop = e.at; devices = e.ieee ∷ [] }) es (omega arith)
        r.0 r.1,
  )
]

-- What the open window holds stays held.
cluster-keeps :
    (t : ℕ) (d : String) (w : Window) (es : List Event)
    → IsIn t d w
    → All (λ e. w.stop ≤ e.at) es
    → IsRising (λ e. e.at) es
    → Some (IsIn t d) (cluster w es)
unfolding cluster
cluster-keeps t d w [] h hs r = inl h
cluster-keeps t d w (e ∷ es) h hs r = elim (Bool-cases (leb e.at (w.stop + gap))) [
  | inl c ↦ rw c (
      cluster-keeps t d (record w { stop = e.at; devices = add e.ieee w.devices }) es
        (h.0, omega (arith, h.1, hs.0), ground (arith, elem-add d e.ieee w.devices, h.2)) r.0 r.1)
  | inr c ↦ rw c (inl h)
]

abbrev chained : Window → Event → Window
chained w e = record w { stop = e.at; devices = add e.ieee w.devices }

abbrev opened : Event → Window
opened e = record { start = e.at; stop = e.at; devices = e.ieee ∷ [] }

cluster-chained :
    (w : Window) (e : Event) (es : List Event)
    → leb e.at (w.stop + gap) ≡ true
    → cluster w (e ∷ es) ≡ cluster (chained w e) es
unfolding cluster
cluster-chained w e es c = rw c refl

cluster-opened :
    (w : Window) (e : Event) (es : List Event)
    → leb e.at (w.stop + gap) ≡ false
    → cluster w (e ∷ es) ≡ w ∷ cluster (opened e) es
unfolding cluster
cluster-opened w e es c = rw c refl

cluster-IsCovered :
    (w : Window) (es : List Event)
    → w.start ≤ w.stop
    → All (λ e. w.stop ≤ e.at) es
    → IsRising (λ e. e.at) es
    → All (IsCovered (cluster w es)) es
cluster-IsCovered w [] h hs r = tt
cluster-IsCovered w (e ∷ es) h hs r = elim (Bool-cases (leb e.at (w.stop + gap))) [
  | inl c ↦
      let v = chained w e in
      let held =
        cluster-keeps e.at e.ieee v es
          (
            omega (arith, h, hs.0),
            omega arith,
            ground (arith, elem-add e.ieee e.ieee w.devices, eq_refl e.ieee),
          )
          r.0 r.1 in
      let later = cluster-IsCovered v es (omega (arith, h, hs.0)) r.0 r.1 in
      subst (λ ws. All (IsCovered ws) (e ∷ es)) (sym (cluster-chained w e es c)) (held, later)
  | inr c ↦
      let v = opened e in
      let held =
        cluster-keeps e.at e.ieee v es (omega arith, omega arith, ground (arith, eq_refl e.ieee))
          r.0 r.1 in
      let later = cluster-IsCovered v es (omega arith) r.0 r.1 in
      subst (λ ws. All (IsCovered ws) (e ∷ es)) (sym (cluster-opened w e es c))
        (inr held, All-map (λ f covered. inr covered) es later)
]

chained-IsSupported :
    (Occurs : ℕ → String → Type 0) (w : Window) (e : Event)
    → w.start ≤ w.stop
    → w.stop ≤ e.at
    → Occurs e.at e.ieee
    → IsSupported Occurs w
    → IsSupported Occurs (chained w e)
chained-IsSupported Occurs w e h le o s d m = elim (Bool-cases (str_eq e.ieee d)) [
  | inl same ↦
      let o' : Occurs e.at d = subst (Occurs e.at) ((eq_iff e.ieee d).0 same) o in
      (e.at, o', omega (arith, h, le), omega arith)
  | inr other ↦
      let before = s d (ground (arith, elem-add d e.ieee w.devices, m, other)) in
      (before.0, before.1, before.2, omega (arith, before.3, le))
]

opened-IsSupported :
    (Occurs : ℕ → String → Type 0) (e : Event) → Occurs e.at e.ieee → IsSupported Occurs (opened e)
opened-IsSupported Occurs e o d m =
    let same : str_eq e.ieee d ≡ true = ground (arith, m) in
    (e.at, subst (Occurs e.at) ((eq_iff e.ieee d).0 same) o, omega arith, omega arith)

cluster-IsSupported :
    (Occurs : ℕ → String → Type 0) (w : Window) (es : List Event)
    → w.start ≤ w.stop
    → All (λ e. w.stop ≤ e.at) es
    → IsRising (λ e. e.at) es
    → All (λ e. Occurs e.at e.ieee) es
    → IsSupported Occurs w
    → All (IsSupported Occurs) (cluster w es)
unfolding cluster
cluster-IsSupported Occurs w [] h hs r os s = (s, tt)
cluster-IsSupported Occurs w (e ∷ es) h hs r os s = elim (Bool-cases (leb e.at (w.stop + gap))) [
  | inl c ↦ rw c (
      cluster-IsSupported Occurs (chained w e) es (omega (arith, h, hs.0)) r.0 r.1 os.1
        (chained-IsSupported Occurs w e h hs.0 os.0 s))
  | inr c ↦ rw c (
    s,
    cluster-IsSupported Occurs (opened e) es (omega arith) r.0 r.1 os.1
        (opened-IsSupported Occurs e os.0),
  )
]

-- A device had an event at an instant.
abbrev pub Occurs : List Event → ℕ → String → Type 0
Occurs es t d = Some (λ e. (e.at ≡ t) × (e.ieee ≡ d)) es

All-Occurs : (es : List Event) → All (λ e. Occurs es e.at e.ieee) es
All-Occurs [] = tt
All-Occurs (e ∷ es) = (inl (refl, refl), All-map (λ f o. inr o) es (All-Occurs es))

-- Windows that stand for events: they rise with more than the gap between them, each event falls
-- in one that has its device, and each device of a window had an event within it.
pub record IsClustering (es : List Event) (ws : List Window) : Type 0 where
  pub apart : IsApart ws
  pub covered : All (IsCovered ws) es
  pub supported : All (IsSupported (Occurs es)) ws

pub cluster_windows-IsClustering :
    (es : List Event) → IsRising (λ e. e.at) es → IsClustering es (cluster_windows es)
unfolding cluster_windows
cluster_windows-IsClustering [] r = record { apart = tt; covered = tt; supported = tt }
cluster_windows-IsClustering (e ∷ es) r =
    let w = opened e in
    let le : w.start ≤ w.stop = omega arith in
    let occur = All-Occurs (e ∷ es) in
    record {
      apart = cluster-IsApart w es le r.0 r.1;
      covered = (
        cluster-keeps e.at e.ieee w es (omega arith, omega arith, ground (arith, eq_refl e.ieee))
            r.0 r.1,
        cluster-IsCovered w es le r.0 r.1,
      );
      supported =
          cluster-IsSupported (Occurs (e ∷ es)) w es le r.0 r.1 occur.1
            (opened-IsSupported (Occurs (e ∷ es)) e occur.0);
    }
