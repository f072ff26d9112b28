-- ===== src/Repo/Toggles.antt =====
-- The toggles that a client SDK is sent.
use feature_probe_server.Prelude.{
  String, ◌≡◌, refl, Option, none, some, [], ◌∷◌, arith, eq_iff, if◌then◌else◌,
}
use feature_probe_server.HashMap.{HashMap, get, collect, IsMap}
use feature_probe_server.HashMap.Laws.{get-collect}
use feature_probe_server.Crates.{Crates}
use feature_probe_server.Repo.Read.{eval_toggles}

module _ (crates : Crates) where
  open crates use {FpUser, Toggle, Segments, EvalDetail}

  -- A toggle's detail for a user, if clients may see the toggle.
  abbrev pub detail_for_client : FpUser → Segments → Option Toggle → Option EvalDetail
  detail_for_client user segments none = none
  detail_for_client user segments (some toggle) =
      if crates.is_for_client toggle then some (crates.eval_detail toggle user segments) else none

  get-eval_toggles :
      (user : FpUser) (segments : Segments) (toggles : HashMap Toggle) (key : String)
      → IsMap toggles
      → get (eval_toggles crates user segments toggles) key
        ≡ detail_for_client user segments (get toggles key)
  unfolding eval_toggles get
  get-eval_toggles user segments [] key h = refl
  get-eval_toggles user segments ((k, t) ∷ toggles) key (fresh, h) =
      ground (arith, eq_iff k key, get-eval_toggles user segments toggles key h)

  eval_toggles-IsMap :
      (user : FpUser) (segments : Segments) (toggles : HashMap Toggle)
      → IsMap toggles
      → IsMap (eval_toggles crates user segments toggles)
  unfolding eval_toggles
  eval_toggles-IsMap user segments [] h = tt
  eval_toggles-IsMap user segments ((k, t) ∷ toggles) (fresh, h) = ground (
    arith,
    get-eval_toggles user segments toggles k h,
    eval_toggles-IsMap user segments toggles h,
  )

  -- For toggles with distinct keys, the map that is sent has for each key the detail of the toggle
  -- of that key if the toggle is for clients, and nothing else.
  pub collect-eval_toggles :
      (user : FpUser) (segments : Segments) (toggles : HashMap Toggle) (key : String)
      → IsMap toggles
      → get (collect (eval_toggles crates user segments toggles)) key
        ≡ detail_for_client user segments (get toggles key)
  collect-eval_toggles user segments toggles key h =
      rw (get-collect _ key (eval_toggles-IsMap user segments toggles h))
        (get-eval_toggles user segments toggles key h)
