-- ===== src/Setup/Travel.antt =====
-- src/rava.c and src/rava_core.c together with the serializer: the modules of one opened state arrive
-- as those of another.
use rava.Base.{ℕ, suc, ◌^◌, ◌<◌, ◌≡◌, sym, ap, ◌∙◌, arith, List, [], ◌∷◌, some, codes, length}
use rava.Outcome.{ok, ◌>>=◌}
use rava.Lua.{str, table, function, Lua}
use rava.Serialize.{serialize_encode}
use rava.Serialize.Decode.{serialize_decode}
use rava.Modules.{Codec, IsModule, Knows, decoder_name, lib_decoder-lib_encoder}
use rava.Setup.{TableApi, name_field}
use rava.Setup.Frame.{IsOpen}
use rava.Setup.Opening.{open_rava}
use rava.Setup.Opened.Parts.{Unused, all_classes}
use rava.Setup.Opened.Modules.{AllOpen, module_names, open_rava-AllOpen}

module _ (L : Lua) (A : TableApi L) (codec : Codec L) where
  -- The hooks are the C functions of the set-up, and a name is read from its field.
  pub record Fits : Type 0 where
    pub encoder_is : codec.encoder ≡ A.c_function (codes "ravaL_lib_encoder")
    pub decoder_is : codec.decoder ≡ A.c_function (codes "ravaL_lib_decoder")
    pub name_is : (h : Lua.Heap L) (t : ℕ) → codec.name_of h t ≡ A.field h t name_field

  module _ (fits : Fits) where
    IsOpen-IsModule :
        (h : Lua.Heap L) (t : ℕ) (name : List ℕ) → IsOpen L A h t name → IsModule L codec h t name
    IsOpen-IsModule h t name o = record {
      named = fits.name_is h t ∙ o.named;
      hooked =
          A.metafield h t t _ o.own o.hooked ∙ ap (λ g. some (function g)) (sym fits.encoder_is);
    }

    IsOpen-Knows :
        (h : Lua.Heap L) (t : ℕ) (name : List ℕ)
        → IsOpen L A h t name
        → L.registry h (str decoder_name) ≡ function (A.c_function (codes "ravaL_lib_decoder"))
        → Knows L codec h t name
    IsOpen-Knows h t name o d = record {
      decodes = d ∙ ap function (sym fits.decoder_is);
      registered = o.registered;
    }

    abbrev AllShort : List (List ℕ) → Type 0
    AllShort [] = Unit {0}
    AllShort (n ∷ ns) = (length n < 2 ^ 32) × AllShort ns

    -- The module of each name, sent from the one state, arrives as the other state's module.
    abbrev pub AllTravel : ℕ → ℕ → Lua.Heap L → Lua.Heap L → List (List ℕ) → Type 0
    AllTravel fuel fuel' h h' [] = Unit {0}
    AllTravel fuel fuel' h h' (n ∷ ns) =
        ((t : ℕ) × (t' : ℕ) × IsOpen L A h t n
          × IsOpen L A h' t' n
          × ((serialize_encode L (suc (suc fuel)) (table t ∷ []) h >>= λ (bytes, sent).
                serialize_decode L (suc (suc (suc fuel'))) bytes h')
              ≡ ok (table t' ∷ [], h')))
        × AllTravel fuel fuel' h h' ns

    travel :
        (fuel fuel' : ℕ) (h h' : Lua.Heap L) (names : List (List ℕ))
        → AllShort names
        → AllOpen L A h names
        → AllOpen L A h' names
        → L.registry h' (str decoder_name) ≡ function (A.c_function (codes "ravaL_lib_decoder"))
        → AllTravel fuel fuel' h h' names
    travel fuel fuel' h h' [] short os os' d = tt
    travel fuel fuel' h h' (n ∷ ns) short ((t, o), os) ((t', o'), os') d = (
      (
        t,
        t',
        o,
        o',
        lib_decoder-lib_encoder L codec fuel fuel' h h' t t' n (IsOpen-IsModule h t n o)
            (IsOpen-Knows h' t' n o' d) short.0,
      ),
      travel fuel fuel' h h' ns short.1 os os' d,
    )

    -- `luaopen_rava` opens two states that have none of the program's classes yet. Then each of the
    -- five modules that the one sends arrives as the module of that name of the other, whose heap stays
    -- as it is. The hooks are the C functions of the set-up, and read the name from its field.
    pub open_rava-AllTravel :
        (fuel fuel' : ℕ) (h h' : Lua.Heap L)
        → Unused L A h all_classes
        → Unused L A h' all_classes
        → (t : ℕ) × (t' : ℕ) × (after : Lua.Heap L) × (after' : Lua.Heap L) × (open_rava L A h
            ≡ ok (t, after))
          × (open_rava L A h' ≡ ok (t', after'))
          × AllTravel fuel fuel' after after' module_names
    open_rava-AllTravel fuel fuel' h h' u u' =
        let (t, after, e, os, d) = open_rava-AllOpen L A h u in
        let (t', after', e', os', d') = open_rava-AllOpen L A h' u' in
        (
          t,
          t',
          after,
          after',
          e,
          e',
          travel fuel fuel' after after' module_names
              (omega arith, (omega arith, (omega arith, (omega arith, (omega arith, tt))))) os os'
              d',
        )
