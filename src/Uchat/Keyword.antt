-- ===== src/Uchat/Keyword.antt =====
-- uchat/sync.go: FetchChatRoomCustomKeywordReplyTemplate, the keyword replies of a shop. A text is
-- the list of its bytes. Parameters: strings.TrimSpace and strings.ToLower, json.Unmarshal for the
-- two columns of a template, and rand.Intn.
pub mod First
mod Examples
use zhiya.Prelude.{
  ℕ, zero, suc, Bool, true, false, ◌&&◌, ◌||◌, Option, none, some, List, [], ◌∷◌, ◌==◌, length,
  get_elem?, if◌then◌else◌,
}

abbrev pub same_text : List ℕ → List ℕ → Bool
same_text [] [] = true
same_text [] (c ∷ t) = false
same_text (b ∷ s) [] = false
same_text (b ∷ s) (c ∷ t) = (b == c) && same_text s t

abbrev pub has_prefix : List ℕ → List ℕ → Bool
has_prefix s [] = true
has_prefix [] (c ∷ t) = false
has_prefix (b ∷ s) (c ∷ t) = (b == c) && has_prefix s t

-- `strings.Index(s, t) >= 0`
abbrev pub has_text : List ℕ → List ℕ → Bool
has_text [] t = has_prefix [] t
has_text (b ∷ s) t = has_prefix (b ∷ s) t || has_text s t

-- The texts "all", "like" and "12".
abbrev pub all_text : List ℕ
all_text = b'a' ∷ b'l' ∷ b'l' ∷ []

abbrev pub like_text : List ℕ
like_text = b'l' ∷ b'i' ∷ b'k' ∷ b'e' ∷ []

abbrev pub twelve : List ℕ
twelve = b'1' ∷ b'2' ∷ []

pub record Keyword : Type 0 where
  pub filter : List ℕ
  pub keyword : List ℕ

-- CustomKeywordReplyTemplateParams
pub record Params : Type 0 where
  pub reply_type : List ℕ
  pub keywords : List Keyword

-- The columns of a WorkTemplate that the function reads.
pub record Template : Type 0 where
  pub cmd_params : List ℕ
  pub cmd_reply : List ℕ

-- What the function comes to; `panics` is the panic of rand.Intn on a number that is not positive.
pub data Reply (Item : Type 0) : Type 0 where
  robot_message : Reply Item
  no_templates : Reply Item
  no_regex_msg : Reply Item
  panics : Reply Item
  reply : List Item → Reply Item

module _ (lower : List ℕ → List ℕ) where
  -- The `switch` on the filter of one keyword.
  unfoldable pub matches : List ℕ → Keyword → Bool
  matches msg k =
      if same_text (lower k.filter) all_text
      then same_text msg k.keyword
      else if same_text (lower k.filter) like_text
      then has_text msg k.keyword
      else false

  -- The loop over the keywords: `break` leaves the `switch` alone, and the loop goes on.
  unfoldable pub has_regex : List ℕ → List Keyword → Bool → Bool
  has_regex msg [] found = found
  has_regex msg (k ∷ ks) found = has_regex msg ks (if matches msg k then true else found)

module _ {Item : Type 0} (lower : List ℕ → List ℕ) (intn : ℕ → ℕ) where
  unfoldable pub choose : Params → List Item → Reply Item
  choose params data' =
      if same_text (lower params.reply_type) all_text
      then reply data'
      else elim (get_elem? data' (intn (length data'))) [
        | none ↦ panics
        | some item ↦ reply (item ∷ [])
      ]

module _ {Item : Type 0} (trim lower : List ℕ → List ℕ) (decode_params : List ℕ → Option Params)
    (decode_reply : List ℕ → Option (List Item)) (intn : ℕ → ℕ) where
  -- The loop over the templates; `msg` is trimmed again in each round.
  unfoldable pub reply_loop : List ℕ → List Template → Reply Item
  reply_loop msg [] = no_regex_msg
  reply_loop msg (t ∷ ts) = elim (decode_params t.cmd_params) [
    | none ↦ reply_loop msg ts
    | some params ↦
        let rest = reply_loop (trim msg) ts in
        if has_regex lower (trim msg) params.keywords false
        then elim (decode_reply t.cmd_reply) [
          | none ↦ rest
          | some data' ↦ choose lower intn params data'
        ]
        else rest
  ]

  -- `templates` is what GetChatRoomValidTemplates returns, `none` its error.
  unfoldable pub custom_keyword_reply : Option (List Template) → List ℕ → List ℕ → Reply Item
  custom_keyword_reply templates msg platform_msg_type =
      if same_text platform_msg_type twelve
      then robot_message
      else elim templates [ none ↦ no_templates | some ts ↦ reply_loop msg ts ]
