-- ===== src/Config/Accepted.antt =====
-- Which configurations pkg/config/config.go accepts, and the durations that it makes of them.
use mini_av.Prelude.{
  ℕ, ◌*◌, ◌≤◌, ◌≡◌, ◌↔◌, ◌⊎◌, inl, inr, Bool-cases, refl, subst, sym, ap, String, List, [], ◌∷◌,
  true, false, not, arith, Result, ok, err, bind-ok, refuse_if-ok,
}
use mini_av.Prelude.Equality.{contains, string_eq}
use mini_av.Prelude.Int.{ℤ, is_negative, is_positive}
use mini_av.Prelude.Text.{is_blank}
use mini_av.Config.{Worker, Config, Files}
use mini_av.Config.Check.{
  Slot, transport_of, ConfigError, or_error, rooted, regular_path, check_worker, validate,
  milliseconds,
}

or_error-ok {ε δ ℓ} :
    {D : Type δ} {E : Type ε} {A : Type ℓ} (f : D → E) (r : Result D A) {a : A}
    → or_error f r ≡ ok a
    → r ≡ ok a
or_error-ok f (ok a) h = ground arith
or_error-ok f (err d) h = absurd (ground arith)

module _ (files : Files) where
  -- A path is taken as it is if it is absolute, and joined to the base directory if it is not.
  abbrev pub IsPlaced : String → String → String → Type 0
  IsPlaced base given path =
      ((files.is_abs given ≡ true) × (files.abs given ≡ ok path))
      ⊎ ((files.is_abs given ≡ false) × (files.abs (files.join base given) ≡ ok path))

  abbrev pub IsRegular : String → String → String → Type 0
  IsRegular base given path =
      (is_blank given ≡ false) × IsPlaced base given path × (files.stat path ≡ ok true)

  IsPlaced-abs :
      (base given path : String)
      → files.abs (rooted files base given) ≡ ok path
      → IsPlaced base given path
  IsPlaced-abs base given path h = elim (Bool-cases (files.is_abs given)) [
    | inl absolute ↦ inl (absolute, ground (arith, absolute, h))
    | inr relative ↦ inr (relative, ground (arith, relative, h))
  ]

  abs-IsPlaced :
      (base given path : String)
      → IsPlaced base given path
      → files.abs (rooted files base given) ≡ ok path
  abs-IsPlaced base given path (inl (absolute, h)) = rw absolute h
  abs-IsPlaced base given path (inr (relative, h)) = rw relative h

  regular_path-means :
      (base given path : String)
      → regular_path files base given ≡ ok path
      → IsRegular base given path
  unfolding regular_path
  regular_path-means base given path h =
      (ground arith, IsPlaced-abs base given path (ground arith), ground arith)

  regular_path-IsRegular :
      (base given path : String)
      → (regular_path files base given ≡ ok path) ↔ IsRegular base given path
  unfolding regular_path
  regular_path-IsRegular base given path = (
    regular_path-means base given path,
    λ (given_there, placed, there).
        let found = abs-IsPlaced base given path placed in
        ground (arith, given_there, found, there),
  )

  -- A worker that is accepted with its transport, after those with the scanner IDs that were seen.
  pub record IsAccepted (base : String) (seen : List String) (transport : String) (w w' : Worker)
      : Type 0 where
    pub named : is_blank w.scanner_id ≡ false
    pub fresh : contains seen w.scanner_id ≡ false
    pub versioned : is_blank w.worker_version ≡ false
    pub no_delay : is_negative w.delay_ms ≡ false
    pub runs : IsRegular base w.executable w'.executable
    pub scans : IsRegular base w.signature_path w'.signature_path
    pub is : w' ≡ record w {
      transport = transport;
      executable = w'.executable;
      signature_path = w'.signature_path;
    }

  check_worker-IsAccepted :
      (base : String) (seen : List String) (slot : Slot) (w w' : Worker)
      → check_worker files base seen slot w ≡ ok w'
      → IsAccepted base seen (transport_of slot) w w'
  unfolding check_worker
  check_worker-IsAccepted base seen slot w w' h =
      let (_, a, h1) = bind-ok _ _ h in
      let (_, b, h2) = bind-ok _ _ h1 in
      let (_, c, h3) = bind-ok _ _ h2 in
      let (_, d, h4) = bind-ok _ _ h3 in
      let (x, e, h5) = bind-ok _ _ h4 in
      let (s, g, h6) = bind-ok _ _ h5 in
      let is : record w { transport = transport_of slot; executable = x; signature_path = s } ≡ w' =
        ground arith in
      subst (IsAccepted base seen (transport_of slot) w) is (record {
        named = refuse_if-ok _ _ a;
        fresh = refuse_if-ok _ _ b;
        versioned = refuse_if-ok _ _ c;
        no_delay = refuse_if-ok _ _ d;
        runs = (regular_path-IsRegular base w.executable x).0 (or_error-ok _ _ e);
        scans = (regular_path-IsRegular base w.signature_path s).0 (or_error-ok _ _ g);
        is = refl;
      })

  IsAccepted-check_worker :
      (base : String) (seen : List String) (slot : Slot) (w w' : Worker)
      → IsAccepted base seen (transport_of slot) w w'
      → check_worker files base seen slot w ≡ ok w'
  unfolding check_worker
  IsAccepted-check_worker base seen slot w w' a =
      let runs = (regular_path-IsRegular base w.executable w'.executable).1 a.runs in
      let scans = (regular_path-IsRegular base w.signature_path w'.signature_path).1 a.scans in
      rw (a.named, a.fresh, a.versioned, a.no_delay, runs, scans) (ap ok (sym a.is))

  -- What a configuration that is accepted was, and has become.
  pub record IsValid (c c' : Config) : Type 0 where
    pub starts : is_positive c.startup_timeout_ms ≡ true
    pub ends : is_positive c.scan_timeout_ms ≡ true
    pub stdio : IsAccepted c.base_dir [] "stdio" c.stdio_worker c'.stdio_worker
    pub socket :
        IsAccepted c.base_dir
          (c.stdio_worker.scanner_id ∷ [])
          "socket"
          c.socket_worker
          c'.socket_worker
    pub grpc :
        IsAccepted c.base_dir
          (c.socket_worker.scanner_id ∷ c.stdio_worker.scanner_id ∷ [])
          "grpc"
          c.grpc_worker
          c'.grpc_worker
    pub is : c' ≡ record c {
      stdio_worker = c'.stdio_worker;
      socket_worker = c'.socket_worker;
      grpc_worker = c'.grpc_worker;
    }

  -- A scanner ID is not changed by the checks.
  same_id :
      (base : String) (seen : List String) (transport : String) (w w' : Worker)
      → IsAccepted base seen transport w w'
      → w'.scanner_id ≡ w.scanner_id
  same_id base seen transport w w' a = ap (λ (x : Worker). x.scanner_id) a.is

  validate-accepts : (c c' : Config) → IsValid c c' → validate files c ≡ ok c'
  unfolding validate
  validate-accepts c c' v =
      let stdio = IsAccepted-check_worker _ _ Slot.stdio_worker _ _ v.stdio in
      let socket = IsAccepted-check_worker _ _ Slot.socket_worker _ _ v.socket in
      let grpc = IsAccepted-check_worker _ _ Slot.grpc_worker _ _ v.grpc in
      let i = same_id _ _ _ _ _ v.stdio in
      let k = same_id _ _ _ _ _ v.socket in
      let x = c'.stdio_worker.scanner_id in
      let y = c'.socket_worker.scanner_id in
      let after_stdio : check_worker files c.base_dir (x ∷ []) Slot.socket_worker c.socket_worker
          ≡ ok c'.socket_worker =
        subst
          (λ t.
            check_worker files c.base_dir (t ∷ []) Slot.socket_worker c.socket_worker
            ≡ ok c'.socket_worker)
          (sym i) socket in
      let after_socket : check_worker files c.base_dir (y ∷ x ∷ []) Slot.grpc_worker c.grpc_worker
          ≡ ok c'.grpc_worker =
        subst
          (λ t.
            check_worker files c.base_dir (y ∷ t ∷ []) Slot.grpc_worker c.grpc_worker
            ≡ ok c'.grpc_worker)
          (sym i)
          (subst
            (λ t.
              check_worker files c.base_dir (t ∷ c.stdio_worker.scanner_id ∷ []) Slot.grpc_worker
                c.grpc_worker
              ≡ ok c'.grpc_worker)
            (sym k) grpc) in
      rw (v.starts, v.ends, stdio, after_stdio, after_socket) (ap ok (sym v.is))

  validate-means : (c c' : Config) → validate files c ≡ ok c' → IsValid c c'
  unfolding validate
  validate-means c c' h =
      let (_, a, h1) = bind-ok _ _ h in
      let (_, b, h2) = bind-ok _ _ h1 in
      let (x, d, h3) = bind-ok _ _ h2 in
      let (y, e, h4) = bind-ok _ _ h3 in
      let (z, g, h5) = bind-ok _ _ h4 in
      let first = check_worker-IsAccepted _ _ _ _ x d in
      let second = check_worker-IsAccepted _ _ _ _ y e in
      let third = check_worker-IsAccepted _ _ _ _ z g in
      let i = same_id _ _ _ _ _ first in
      let k = same_id _ _ _ _ _ second in
      let is : record c { stdio_worker = x; socket_worker = y; grpc_worker = z } ≡ c' =
        ground arith in
      subst (IsValid c) is (record {
        starts = ground (
          arith,
          refuse_if-ok (not (is_positive c.startup_timeout_ms)) ConfigError.bad_startup_timeout a,
        );
        ends = ground (
          arith,
          refuse_if-ok (not (is_positive c.scan_timeout_ms)) ConfigError.bad_scan_timeout b,
        );
        stdio = first;
        socket = subst (λ t. IsAccepted c.base_dir (t ∷ []) "socket" c.socket_worker y) i second;
        grpc =
            subst
              (λ t.
                IsAccepted c.base_dir (c.socket_worker.scanner_id ∷ t ∷ []) "grpc" c.grpc_worker z)
              i
              (subst (λ t. IsAccepted c.base_dir (t ∷ x.scanner_id ∷ []) "grpc" c.grpc_worker z) k
                third);
        is = refl;
      })

  -- A configuration is accepted exactly when both timeouts are positive, each worker has a scanner
  -- ID and a version that are not blank and a delay that is not negative, no scanner ID is that of
  -- an earlier worker, and the executables and signature files are regular. The stdio,
  -- socket and gRPC workers then have the transports stdio, socket and grpc; a path is what
  -- filepath.Abs makes of it, or of its join with the base directory if it is relative; and nothing
  -- else is changed.
  pub validate-IsValid : (c c' : Config) → (validate files c ≡ ok c') ↔ IsValid c c'
  validate-IsValid c c' = (validate-means c c', validate-accepts c c')

-- A timeout of as many milliseconds is that long a duration exactly up to this bound: an int64
-- counts nanoseconds.
pub milliseconds-bound :
    (n : ℕ) → (milliseconds (ℤ.pos n) ≡ ℤ.pos (n * 1_000_000)) ↔ (n ≤ 9_223_372_036_854)
unfolding milliseconds
milliseconds-bound n = (λ h. ground arith, λ h. ground arith)
