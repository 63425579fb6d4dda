-- ===== src/LogSignature/Title.antt =====
-- The length of an alert's title, and what it identifies.
use Prim.Native.String
use text.Mathlib.TextLemmas.{cons-append, nil-append, append_cancel_left, append_cancel_right}
use sysadmin_assistant.Shared.{
  ℕ, ◌+◌, ◌-◌, ◌≤◌, ◌≡◌, refl, sym, ap, ◌∙◌, max, String, ◌↔◌, [], ◌∷◌, leb, leb→le, le→leb,
  Bool-cases, inl, inr, arith,
}
use sysadmin_assistant.Shared.Text.{concat, text_length}
use sysadmin_assistant.WordLimit.{prefix}
use sysadmin_assistant.WordLimit.Positions.{text_length-prefix}
use sysadmin_assistant.LogSignature.{
  title_max, signature, signature_digest, title_prefix, reserved, alert_title,
}

text_length-append : (s t : String) → text_length (String.◌++◌ s t) ≡ text_length s + text_length t
text_length-append String.[] t = ap text_length (nil-append t) ∙ omega arith
text_length-append (String.◌∷◌ c s) t =
    ap text_length (cons-append c s t) ∙ omega (arith, text_length-append s t)

text_length-two : (s t : String) → text_length (concat (s ∷ t ∷ [])) ≡ text_length s + text_length t
unfolding concat
text_length-two s t =
    omega (arith, text_length-append s (String.◌++◌ t ""), text_length-append t "")

text_length-three :
    (s t u : String)
    → text_length (concat (s ∷ t ∷ u ∷ [])) ≡ text_length s + (text_length t + text_length u)
unfolding concat
text_length-three s t u = omega (
  arith,
  text_length-append s (String.◌++◌ t (String.◌++◌ u "")),
  text_length-append t (String.◌++◌ u ""),
  text_length-append u "",
)

module _ (sha256_hex : String → String) (truncate_at_word : String → ℕ → String)
    (marker : String) where
  -- A text that is cut to a number of characters has those and the marker's at most.
  abbrev pub Truncates : Type 0
  Truncates =
      (text : String) (n : ℕ) → text_length (truncate_at_word text n) ≤ n + text_length marker

  suffix-length :
      (text : String)
      → text_length
          (concat (" [" ∷ signature_digest sha256_hex truncate_at_word marker text ∷ "]" ∷ []))
        ≤ 11
  unfolding concat signature_digest
  suffix-length text =
      let digest = prefix 8 (sha256_hex text) in
      omega (
        arith,
        text_length-append " [" (String.◌++◌ digest (String.◌++◌ "]" "")),
        text_length-append digest (String.◌++◌ "]" ""),
        text_length-append "]" "",
        text_length-prefix 8 (sha256_hex text),
      )

  -- Where the prefix of the title, the marker and the digest leave room for a character, the title of an
  -- alert fits into its column of 255 characters, provided that a cut text exceeds the number of
  -- characters it is cut to by those of the marker at most.
  pub alert_title-fits :
      (severity source message : String)
      → Truncates
      → reserved sha256_hex truncate_at_word marker severity source + 12 ≤ title_max
      → text_length (alert_title sha256_hex truncate_at_word marker severity source message)
        ≤ title_max
  unfolding alert_title reserved
  alert_title-fits severity source message truncates room =
      let text = signature message in
      let front = title_prefix sha256_hex truncate_at_word marker severity source in
      let kept_out = reserved sha256_hex truncate_at_word marker severity source in
      let suffix =
        concat (" [" ∷ signature_digest sha256_hex truncate_at_word marker text ∷ "]" ∷ []) in
      let limit = max (title_max - kept_out - text_length suffix) 1 in
      elim (Bool-cases (leb (text_length text + kept_out) title_max)) [
        | inl short ↦ rw short (
            omega (
              arith,
              text_length-two front text,
              leb→le (text_length text + kept_out) title_max short,
            ))
        | inr long ↦ rw long (
            omega (
              arith,
              text_length-three front (truncate_at_word text limit) suffix,
              truncates text limit,
              suffix-length text,
              room,
            ))
      ]

  uncut :
      (severity source message : String)
      → text_length (signature message)
          + reserved sha256_hex truncate_at_word marker severity source
        ≤ title_max
      → alert_title sha256_hex truncate_at_word marker severity source message
        ≡ String.◌++◌
            (title_prefix sha256_hex truncate_at_word marker severity source)
            (String.◌++◌ (signature message) "")
  unfolding alert_title concat
  uncut severity source message fits =
      rw
        (le→leb
          (text_length (signature message)
            + reserved sha256_hex truncate_at_word marker severity source)
          title_max fits)
        refl

  -- Two messages of one severity and source whose titles are not cut have one title exactly when they
  -- have one signature.
  pub alert_title-uncut :
      (severity source message other : String)
      → text_length (signature message)
          + reserved sha256_hex truncate_at_word marker severity source
        ≤ title_max
      → text_length (signature other) + reserved sha256_hex truncate_at_word marker severity source
        ≤ title_max
      → (alert_title sha256_hex truncate_at_word marker severity source message
          ≡ alert_title sha256_hex truncate_at_word marker severity source other)
        ↔ (signature message ≡ signature other)
  alert_title-uncut severity source message other fits other_fits =
      let front = title_prefix sha256_hex truncate_at_word marker severity source in
      let here = uncut severity source message fits in
      let there = uncut severity source other other_fits in
      (
        λ same. append_cancel_right (signature message) (signature other) "" (
            append_cancel_left front (String.◌++◌ (signature message) "")
              (String.◌++◌ (signature other) "") (sym here ∙ same ∙ there)),
        λ alike. here ∙ ap (λ t. String.◌++◌ front (String.◌++◌ t "")) alike ∙ sym there,
      )
