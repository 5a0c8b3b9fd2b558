-- ===== src/Examples/Finalizers.antt =====
-- controllers/werfbundle_controller.go: a bundle that is being deleted, with finalizers as a list.
use mathlib.Core.List.{Memᴰ}
use mathlib.Core.List.Memᴰ
use k8s_werf_operator_go.Base.{
  true, some, List, [], ◌∷◌, ◌≡◌, ◌≢◌, ◌⊎◌, refl, sym, ◌∙◌, arith, GoString, str_eq, str_eq_iff,
  Bool-cases, inl, inr, if◌then◌else◌,
}
use k8s_werf_operator_go.Api.{WerfBundle}
use k8s_werf_operator_go.Controller.Cluster.{Library}
use k8s_werf_operator_go.Controller.Reconcile.{reconcile, finalizer_name}
use k8s_werf_operator_go.Controller.Rejections.{
  HandlesFinalizers, IsLeft, IsReleased, reconcile-IsReleased,
}
use k8s_werf_operator_go.Examples.Server.{server, library, has, request, new_bundle, start_with}

abbrev without : List GoString → GoString → List GoString
without [] f = []
without (g ∷ fs) f = let rest = without fs f in if str_eq g f then rest else g ∷ rest

abbrev handling : Library
handling = record library { remove_finalizer = without }

has-Mem : (fs : List GoString) (f : GoString) → has fs f ≡ true → Memᴰ f fs
has-Mem [] f h = cc
has-Mem (g ∷ fs) f h = elim (Bool-cases (str_eq g f)) [
  | inl q ↦ Memᴰ.head (sym ((str_eq_iff g f).0 q))
  | inr q ↦ Memᴰ.tail (has-Mem fs f (ground (arith, q, h)))
]

Mem-has : (fs : List GoString) (f : GoString) → Memᴰ f fs → has fs f ≡ true
Mem-has [] f m = elim m [ ]
Mem-has (g ∷ fs) f (Memᴰ.head e) = rw ((str_eq_iff g f).1 (sym e)) refl
Mem-has (g ∷ fs) f (Memᴰ.tail h) = ground (arith, Mem-has fs f h)

without-Mem : (fs : List GoString) (f g : GoString) → Memᴰ g (without fs f) → Memᴰ g fs × (g ≢ f)
without-Mem [] f g m = elim m [ ]
without-Mem (h ∷ fs) f g m = elim (Bool-cases (str_eq h f)) [
  | inl q ↦ let (k, n) = without-Mem fs f g (rw q at m) in (Memᴰ.tail k, n)
  | inr q ↦ elim (Memᴰ.cases_cons (rw q at m)) [
    | inl e ↦ (Memᴰ.head e, λ s. cc ((str_eq_iff h f).1 (sym e ∙ s), q))
    | inr k ↦ let (k', n) = without-Mem fs f g k in (Memᴰ.tail k', n)
  ]
]

Mem-without : (fs : List GoString) (f g : GoString) → Memᴰ g fs → g ≢ f → Memᴰ g (without fs f)
Mem-without [] f g m n = elim m [ ]
Mem-without (h ∷ fs) f g (Memᴰ.head e) n = elim (Bool-cases (str_eq h f)) [
  | inl q ↦ absurd (n (e ∙ (str_eq_iff h f).0 q))
  | inr q ↦ rw q (Memᴰ.head e)
]
Mem-without (h ∷ fs) f g (Memᴰ.tail m) n = elim (Bool-cases (str_eq h f)) [
  | inl q ↦ rw q (Mem-without fs f g m n)
  | inr q ↦ rw q (Memᴰ.tail (Mem-without fs f g m n))
]

handling-HandlesFinalizers : HandlesFinalizers handling
handling-HandlesFinalizers = record {
  contains_iff = λ fs f. (has-Mem fs f, Mem-has fs f);
  removes = λ fs f g. (without-Mem fs f g, λ h. Mem-without fs f g h.0 h.1);
}

-- A bundle that is being deleted and has the operator's finalizer and another one.
abbrev leaving : WerfBundle
unfolding finalizer_name
leaving = record new_bundle {
  meta = record (new_bundle.meta) {
    deletion_timestamp = some 5;
    finalizers = (b'f' ∷ []) ∷ finalizer_name ∷ [];
  };
}

reconcile-IsReleased_example :
    let (outcome, e') = reconcile server handling request (start_with leaving) in
    IsLeft leaving outcome [] e'.calls
    ⊎ IsReleased leaving
        (λ b'. (server.update b' (server.get_bundle request (start_with leaving).state).1).0)
        outcome
        []
        e'.calls
unfolding leaving
reconcile-IsReleased_example =
    reconcile-IsReleased server handling request (start_with leaving) handling-HandlesFinalizers
      refl refl
