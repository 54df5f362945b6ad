-- ===== src/Sdk/Ipfs/Gateways.antt =====
-- The fallback from gateway to gateway.
use blindference.Prelude.{
  ℕ, String, ◌≡◌, refl, sym, ap, List, [], ◌∷◌, ◌++◌, append_assoc, append-nil, Option, Result, ok,
  err, length, ◌⊎◌, inl, inr, arith, ◌∙◌, Result-cases,
}
use blindference.Bytes.{Buffer}
use blindference.Http.{Response}
use blindference.Async.{Async}
use blindference.Sdk.Ipfs.{url_of, judge, failure, gateways_of, try_gateways, download_from_ipfs}

module _ {W : Type 0} (fetch : String → Async W Response) (cid : String) where
  -- What a gateway gives from a state, and the state that the request leaves.
  abbrev pub asked : String → W → Result Buffer
  asked g w = judge (url_of g cid) (fetch (url_of g cid) w).0

  abbrev pub after : String → W → W
  after g w = (fetch (url_of g cid) w).1

  -- The gateways that were asked, each in vain, with the lines that were noted.
  pub data Missed : List String → W → List String → W → Type 0 where
    no_more : (w : W) → Missed [] w [] w
    missed :
        (g : String) (gs : List String) (w w' : W) (line : String) (lines : List String)
        → asked g w ≡ err line
        → Missed gs (after g w) lines w'
        → Missed (g ∷ gs) w (line ∷ lines) w'

  step_missed :
      (attempts : ℕ) (errors gs : List String) (g line : String) (w : W)
      → asked g w ≡ err line
      → try_gateways fetch cid attempts errors (g ∷ gs) w
        ≡ try_gateways fetch cid attempts (errors ++ line ∷ []) gs (after g w)
  unfolding try_gateways
  step_missed attempts errors gs g line w h = ground arith

  step_hit :
      (attempts : ℕ) (errors gs : List String) (g : String) (body : Buffer) (w : W)
      → asked g w ≡ ok body
      → try_gateways fetch cid attempts errors (g ∷ gs) w ≡ (ok body, after g w)
  unfolding try_gateways
  step_hit attempts errors gs g body w h = ground arith

  -- Gateways that miss are passed over, and their lines are noted.
  skip :
      (attempts : ℕ) (more : List String) {gs lines : List String} {w w' : W}
      → Missed gs w lines w'
      → (errors : List String)
      → try_gateways fetch cid attempts errors (gs ++ more) w
        ≡ try_gateways fetch cid attempts (errors ++ lines) more w'
  skip attempts more (Missed.no_more w) errors = rw append-nil refl
  skip attempts more (Missed.missed g gs w w' line lines h rest) errors =
      step_missed attempts errors (gs ++ more) g line w h
      ∙ (skip attempts more rest (errors ++ line ∷ [])
          ∙ ap (λ l. try_gateways fetch cid attempts l more w')
              (append_assoc errors (line ∷ []) lines))

  all_asked :
      (attempts : ℕ) (lines : List String) (w : W)
      → try_gateways fetch cid attempts lines [] w ≡ (err (failure attempts cid lines), w)
  unfolding try_gateways
  all_asked attempts lines w = refl

  -- Any list of gateways misses as a whole, or has a first one that gives the file.
  first_hit :
      (gs : List String) (w : W)
      → ((lines : List String) × (w' : W) × Missed gs w lines w')
        ⊎ ((before : List String) × (g : String) × (later lines : List String) × (w' : W)
            × (body : Buffer) × (gs ≡ before ++ g ∷ later)
            × Missed before w lines w'
            × (asked g w' ≡ ok body))
  first_hit [] w = inl ([], w, Missed.no_more w)
  first_hit (g ∷ gs) w = elim (Result-cases (asked g w)) [
    | inl (body, found) ↦ inr ([], g, gs, [], w, body, refl, Missed.no_more w, found)
    | inr (line, h) ↦ elim (first_hit gs (after g w)) [
      | inl (lines, w', rest) ↦ inl (line ∷ lines, w', Missed.missed g gs w w' line lines h rest)
      | inr (before, g', later, lines, w', body, order, rest, found) ↦ inr (
        g ∷ before,
        g',
        later,
        line ∷ lines,
        w',
        body,
        ap (λ l. g ∷ l) order,
        Missed.missed g before w w' line lines h rest,
        found,
      )
    ]
  ]

  module _ (env ipfs_env override : Option String) where
    -- The first gateway that gives the file ends the download, with its body, and no later one is
    -- asked: the state is as its request left it.
    pub download_first :
        (before : List String) (g : String) (later lines : List String) (body : Buffer) (w w' : W)
        → gateways_of env ipfs_env override ≡ before ++ g ∷ later
        → Missed before w lines w'
        → asked g w' ≡ ok body
        → download_from_ipfs fetch cid env ipfs_env override w ≡ (ok body, after g w')
    unfolding download_from_ipfs
    download_first before g later lines body w w' order in_vain found = rw order (
        skip (length (before ++ g ∷ later)) (g ∷ later) in_vain []
        ∙ step_hit (length (before ++ g ∷ later)) lines later g body w' found)

    -- When every gateway misses, the download throws one error, which counts the attempts and holds
    -- the line of each of them in order.
    pub download_none :
        (lines : List String) (w w' : W)
        → Missed (gateways_of env ipfs_env override) w lines w'
        → download_from_ipfs fetch cid env ipfs_env override w
          ≡ (err (failure (length (gateways_of env ipfs_env override)) cid lines), w')
    unfolding download_from_ipfs
    download_none lines w w' in_vain =
        let asked_all = gateways_of env ipfs_env override in
        ap (λ gs. try_gateways fetch cid (length asked_all) [] gs w) (sym (append-nil asked_all))
        ∙ (skip (length asked_all) [] in_vain [] ∙ all_asked (length asked_all) lines w')

    -- A download has one of two outcomes: some gateway is the first to give the file, and its body
    -- comes back from the state that its request left; or every gateway missed, and one error
    -- counts them and holds their lines in order.
    pub download_from_ipfs_cases :
        (w : W)
        → let gateways = gateways_of env ipfs_env override in
          ((lines : List String) × (w' : W) × Missed gateways w lines w'
            × (download_from_ipfs fetch cid env ipfs_env override w
                ≡ (err (failure (length gateways) cid lines), w')))
          ⊎ ((before : List String) × (g : String) × (later lines : List String) × (w' : W)
              × (body : Buffer) × (gateways ≡ before ++ g ∷ later)
              × Missed before w lines w'
              × (asked g w' ≡ ok body)
              × (download_from_ipfs fetch cid env ipfs_env override w ≡ (ok body, after g w')))
    download_from_ipfs_cases w = elim (first_hit (gateways_of env ipfs_env override) w) [
      | inl (lines, w', in_vain) ↦ inl (lines, w', in_vain, download_none lines w w' in_vain)
      | inr (before, g, later, lines, w', body, order, in_vain, found) ↦ inr (
        before,
        g,
        later,
        lines,
        w',
        body,
        order,
        in_vain,
        found,
        download_first before g later lines body w w' order in_vain found,
      )
    ]
