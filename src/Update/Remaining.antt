-- ===== src/Update/Remaining.antt =====
-- The temporary directories of pkg/update/update.go that RemoveAll was asked for, and those that exist.
use mini_av.Prelude.{
  ◌≡◌, String, Option, none, some, List, [], ◌∷◌, true, ◌||◌, All, arith, Result, ok, err,
}
use mini_av.Prelude.Equality.{==_refl, string_eq, contains}
use mini_av.Update.Calls.{Call, History, Env}
use mini_av.Update.Leftover.{without, contains-without, made, moved, leftover}

All-contains :
    (P : String → Type 0) (ts : List String)
    → ((x : String) → contains ts x ≡ true → P x)
    → All P ts
unfolding contains
All-contains P [] k = tt
All-contains P (t ∷ ts) k =
    (k t (ground (arith, ==_refl t)), All-contains P ts λ x e. k x (ground (arith, e)))

module _ (env : Env) where
  abbrev refusal : String → Option String → List String → List String
  refusal t none ts = ts
  refusal t (some e) ts = t ∷ ts

  -- The directories for which RemoveAll returned an error.
  unfoldable pub refused : History → List String
  refused [] = []
  refused (Call.remove_all t ∷ h) = refusal t (env.remove_all h t) (refused h)
  refused (call ∷ h) = refused h

  -- The temporary directories that were made and still exist: not renamed, and not removed by a
  -- RemoveAll that returned no error.
  unfoldable pub remaining : History → List String
  unfolding without
  remaining [] = []
  remaining (Call.mkdir_temp root version ∷ h) =
      made env (env.mkdir_temp h root version) (remaining h)
  remaining (Call.rename from to ∷ h) = moved env from (env.rename h from to) (remaining h)
  remaining (Call.remove_all t ∷ h) = moved env t (env.remove_all h t) (remaining h)
  remaining (call ∷ h) = remaining h

  -- One that exists was not given to RemoveAll, or that returned an error.
  abbrev IsExplained : String → List String → List String → List String → Type 0
  IsExplained x exist left failed =
      contains exist x ≡ true → (contains left x || contains failed x) ≡ true

  made-IsExplained :
      (x : String) (answer : Result String String) (exist left failed : List String)
      → IsExplained x exist left failed
      → IsExplained x (made env answer exist) (made env answer left) failed
  unfolding contains
  made-IsExplained x (ok t) exist left failed k e = ground (arith, k)
  made-IsExplained x (err f) exist left failed k e = k e

  moved-IsExplained :
      (x t : String) (answer : Option String) (exist left failed : List String)
      → IsExplained x exist left failed
      → IsExplained x (moved env t answer exist) (moved env t answer left) failed
  moved-IsExplained x t none exist left failed k e =
      ground (arith, k, contains-without t x exist, contains-without t x left)
  moved-IsExplained x t (some f) exist left failed k e = k e

  removed-IsExplained :
      (x t : String) (answer : Option String) (exist left failed : List String)
      → IsExplained x exist left failed
      → IsExplained x (moved env t answer exist) (without t left) (refusal t answer failed)
  unfolding contains
  removed-IsExplained x t none exist left failed k e =
      ground (arith, k, contains-without t x exist, contains-without t x left)
  removed-IsExplained x t (some f) exist left failed k e =
      ground (arith, k, contains-without t x left, string_eq.decides t x, string_eq.decides x t)

  remaining-IsExplained :
      (x : String) (h : History) → IsExplained x (remaining h) (leftover env h) (refused h)
  unfolding remaining leftover refused contains
  remaining-IsExplained x [] = λ e. absurd (ground (arith, e))
  remaining-IsExplained x (Call.mkdir_temp root version ∷ h) =
      made-IsExplained x (env.mkdir_temp h root version) (remaining h) (leftover env h) (refused h)
        (remaining-IsExplained x h)
  remaining-IsExplained x (Call.rename from to ∷ h) =
      moved-IsExplained x from (env.rename h from to) (remaining h) (leftover env h) (refused h)
        (remaining-IsExplained x h)
  remaining-IsExplained x (Call.remove_all t ∷ h) =
      removed-IsExplained x t (env.remove_all h t) (remaining h) (leftover env h) (refused h)
        (remaining-IsExplained x h)
  remaining-IsExplained x (Call.check_context ∷ h) = remaining-IsExplained x h
  remaining-IsExplained x (Call.stat path ∷ h) = remaining-IsExplained x h
  remaining-IsExplained x (Call.open_file path ∷ h) = remaining-IsExplained x h
  remaining-IsExplained x (Call.mkdir_all path ∷ h) = remaining-IsExplained x h
  remaining-IsExplained x (Call.close path ∷ h) = remaining-IsExplained x h
  remaining-IsExplained x (Call.create path mode ∷ h) = remaining-IsExplained x h
  remaining-IsExplained x (Call.chmod path mode ∷ h) = remaining-IsExplained x h
  remaining-IsExplained x (Call.write path s ∷ h) = remaining-IsExplained x h
  remaining-IsExplained x (Call.get source ∷ h) = remaining-IsExplained x h

  -- Where every one was renamed or given to RemoveAll, one that exists is one that RemoveAll refused.
  pub remaining-refused :
      (h : History) → leftover env h ≡ [] → All (λ t. contains (refused h) t ≡ true) (remaining h)
  unfolding contains
  remaining-refused h clean =
      All-contains (λ t. contains (refused h) t ≡ true) (remaining h)
        λ x e. ground (arith, clean, remaining-IsExplained x h e)
