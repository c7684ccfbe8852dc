-- ===== src/Serialize/Objects.antt =====
-- The decoder reads every item: its bytes make it do what the item stands for.
use rava.Base.{
  ℕ, ◌+◌, ◌^◌, ◌≤◌, ◌<◌, ◌≡◌, refl, arith, Bool, true, false, List, ◌++◌, Option, none, some,
  length, if◌then◌else◌,
}
use rava.Outcome.{Outcome, Error, raised, ◌>>=◌}
use rava.Buffer.{Cell}
use rava.Buffer.Uleb.{uleb128}
use rava.Buffer.Reading.{Reads, Reads-skip}
use rava.Lua.{Lua}
use rava.Serialize.Decode.{
  decode_value, decode_table, resolve_hook, is_function, decode_user_table, decode_userdata,
  decode_new_table, decode_loaded, decode_new_function,
}
use rava.Serialize.Format.{
  Item, Entries, table_val, table_usr, function_val, userdata, print, print_entries, IsSendable,
  AreSendable, rounds, rounds_entries,
}
use rava.Serialize.Build.{World, build, build_entries, build_loaded}
use rava.Serialize.Reader.{
  at, stop, read-at, uleb-at, follow, follow_table, same, Follows, FollowsEntries,
}

module _ (L : Lua) (size : ℕ) (cells : List Cell) where
  checked {ℓ κ μ} :
      {A : Type ℓ} {C : Type κ} {D : Type μ} (test : Bool) (r : Outcome A) (e : Error)
      (F : A → Outcome D) (G : A → Outcome C) (H : C → Outcome D)
      → ((a : A) → F a ≡ (G a >>= H))
      → (if test then (r >>= F) else raised e) ≡ ((if test then (r >>= G) else raised e) >>= H)
  checked true r e F G H k = same L size cells r F G H k
  checked false r e F G H k = refl

  pub user_table-Follows :
      (a b : Item)
      → Follows L size cells a
      → Follows L size cells b
      → (fuel n : ℕ) (w : World L) (rest : List ℕ) → IsSendable a
      → IsSendable b
      → rounds a + rounds b ≤ fuel
      → Reads cells n (print a ++ (print b ++ rest))
      → decode_user_table L (decode_value L fuel) (decode_table L fuel) (at L size cells n w) ≡ (
          build L (table_usr a b) w >>= stop L size cells (n + length (print a) + length (print b)))
  unfolding decode_user_table build
  user_table-Follows a b fa fb fuel n w rest sa sb h r =
      follow L size cells (n + length (print a)) (build L a w) _ _ _
        (fa fuel n w _ sa (omega arith) r)
        λ hook w₁. same L size cells (resolve_hook L w₁.heap hook) _ _ _ λ hook'.
          follow L size cells (n + length (print a) + length (print b)) (build L b w₁) _ _ _
            (fb fuel _ w₁ rest sb (omega arith) (Reads-skip cells n (print a) _ r))
            λ arg w₂. same L size cells (L.call_one w₂.heap hook' arg) _ _ _ λ (result, heap). refl

  pub userdata-Follows :
      (a b : Item)
      → Follows L size cells a
      → Follows L size cells b
      → (fuel n : ℕ) (w : World L) (rest : List ℕ) → IsSendable a
      → IsSendable b
      → rounds a + rounds b ≤ fuel
      → Reads cells n (print a ++ (print b ++ rest))
      → decode_userdata L (decode_value L fuel) (decode_table L fuel) (at L size cells n w)
        ≡ (build L (userdata a b) w >>= stop L size cells (n + length (print a) + length (print b)))
  unfolding decode_userdata build
  userdata-Follows a b fa fb fuel n w rest sa sb h r =
      follow L size cells (n + length (print a)) (build L a w) _ _ _
        (fa fuel n w _ sa (omega arith) r)
        λ hook w₁. same L size cells (resolve_hook L w₁.heap hook) _ _ _ λ hook'.
          follow L size cells (n + length (print a) + length (print b)) (build L b w₁) _ _ _
            (fb fuel _ w₁ rest sb (omega arith) (Reads-skip cells n (print a) _ r))
            λ arg w₂.
              checked (is_function hook') (L.call_one w₂.heap hook' arg) _ _ _ _
                λ (result, heap). refl

  pub new_table-follows :
      (es : Entries)
      → FollowsEntries L size cells es
      → (fuel n : ℕ) (w : World L) (rest : List ℕ) → AreSendable es
      → rounds_entries es ≤ fuel
      → Reads cells n (print_entries es ++ rest)
      → decode_new_table L (decode_value L fuel) (decode_table L fuel) (at L size cells n w)
        ≡ (build L (table_val es) w >>= stop L size cells (n + length (print_entries es)))
  unfolding decode_new_table build
  new_table-follows es fe fuel n w rest s h r =
      follow_table L size cells (n + length (print_entries es)) (build_entries L es _ _) _ _ _
        (fe fuel n _ _ rest s h r) λ w'. refl

  loaded-follows :
      (es : Entries)
      → FollowsEntries L size cells es
      → (fuel n : ℕ) (w : World L) (rest : List ℕ) (loaded : Option (ℕ × Lua.Heap L))
      → AreSendable es
      → rounds_entries es ≤ fuel
      → Reads cells n (print_entries es ++ rest)
      → decode_loaded L (decode_value L fuel) (decode_table L fuel) loaded (at L size cells n w) ≡ (
          build_loaded L (build_entries L es) loaded w
          >>= stop L size cells (n + length (print_entries es)))
  unfolding decode_loaded build_loaded
  loaded-follows es fe fuel n w rest none s h r = refl
  loaded-follows es fe fuel n w rest (some (g, heap)) s h r =
      follow_table L size cells (n + length (print_entries es)) (build_entries L es _ _) _ _ _
        (fe fuel n _ _ rest s h r) λ w'. refl

  pub new_function-follows :
      (code : List ℕ) (es : Entries)
      → FollowsEntries L size cells es
      → (fuel n : ℕ) (w : World L) (rest : List ℕ) → length code < 2 ^ 32
      → AreSendable es
      → rounds_entries es ≤ fuel
      → Reads cells n (uleb128 (length code) ++ (code ++ (print_entries es ++ rest)))
      → decode_new_function L (decode_value L fuel) (decode_table L fuel) (at L size cells n w) ≡ (
          build L (function_val code es) w
          >>= stop L size cells
              (n + length (uleb128 (length code)) + length code + length (print_entries es)))
  unfolding decode_new_function build
  new_function-follows code es fe fuel n w rest small s h r =
      let len = uleb128 (length code) in
      let r₁ = Reads-skip cells n len _ r in
      rw
        (
          uleb-at L size cells n w (length code) _ small r,
          read-at L size cells (n + length len) w (length code) code _ refl r₁,
        )
        (loaded-follows es fe fuel (n + length len + length code) w rest (L.load_buffer w.heap code)
          s h (Reads-skip cells (n + length len) code _ r₁))
