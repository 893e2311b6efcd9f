-- ===== src/Plugin/Namespace.antt =====
-- The namespace that the plugin infers.
use managed_serviceaccount.Prelude.{
  String, ◌==◌, eq_iff, ◌≡◌, ◌≢◌, refl, ◌∙◌, sym, Bool-cases, inl, inr,
}
use managed_serviceaccount.Errors.{Result, ok, err}
use managed_serviceaccount.Kube.{differ_ne}
use managed_serviceaccount.Gotext.{trim_space}
use managed_serviceaccount.Gotext.Trim.{IsBlank, trim_space-blank, trim_space_idem}
use managed_serviceaccount.Plugin.{
  Host, namespace_file, from_context, explicit_path, from_file, infer_namespace,
}

-- A text with something else than spaces in it.
abbrev pub HasInk : String → Type 0
HasInk s = trim_space s ≢ ""

trim_space-HasInk : (s : String) → HasInk s → HasInk (trim_space s)
trim_space-HasInk s h e = h (sym (trim_space_idem s) ∙ e)

default-HasInk : HasInk "default"
unfolding trim_space
default-HasInk h = cc (h)

module _ {S : Type 0} (host : Host S) where
  from_context-HasInk : (r : Result String) → HasInk (from_context host r)
  unfolding from_context
  from_context-HasInk (err e) = default-HasInk
  from_context-HasInk (ok n) = elim (Bool-cases (trim_space n == "")) [
    | inl blank ↦ rw blank default-HasInk
    | inr ink ↦ rw ink (differ_ne (trim_space n) "" ink)
  ]

  from_file-HasInk :
      (r : Result String)
      → ((text : String) → r ≡ ok text → text ≢ "" → HasInk text)
      → HasInk (from_file host r)
  unfolding from_file
  from_file-HasInk (err e) h =
      from_context-HasInk (host.context_namespace (explicit_path host (host.getenv "KUBECONFIG")))
  from_file-HasInk (ok text) h = elim (Bool-cases (text == "")) [
    | inl empty ↦ rw empty (
        from_context-HasInk
          (host.context_namespace (explicit_path host (host.getenv "KUBECONFIG"))))
    | inr there ↦ rw there (trim_space-HasInk text (h text refl (differ_ne text "" there)))
  ]

  -- The namespace that is inferred has something else than spaces in it, whatever the environment, the
  -- pod and the kubeconfig say, if the namespace file of the pod is not one of spaces only.
  pub infer_namespace-HasInk :
      ((text : String) → host.read_file namespace_file ≡ ok text → text ≢ "" → HasInk text)
      → HasInk (infer_namespace host)
  unfolding infer_namespace
  infer_namespace-HasInk h = elim (Bool-cases (trim_space (host.getenv "NAMESPACE") == "")) [
    | inl blank ↦ rw blank (from_file-HasInk (host.read_file namespace_file) h)
    | inr ink ↦ rw ink (trim_space-HasInk (host.getenv "NAMESPACE") (differ_ne _ "" ink))
  ]

  -- Where NAMESPACE is unset or blank and the namespace file holds spaces only, the namespace that is
  -- inferred is the empty text, whatever the kubeconfig says.
  pub infer_namespace-blank_file :
      (text : String)
      → IsBlank (host.getenv "NAMESPACE")
      → host.read_file namespace_file ≡ ok text
      → text ≢ ""
      → IsBlank text
      → infer_namespace host ≡ ""
  unfolding infer_namespace from_file
  infer_namespace-blank_file text unset held there blank =
      rw (trim_space-blank (host.getenv "NAMESPACE") unset, held)
        (elim (Bool-cases (text == "")) [
          | inl empty ↦ absurd (there ((eq_iff text "").0 empty))
          | inr some_text ↦ rw some_text (trim_space-blank text blank)
        ])
