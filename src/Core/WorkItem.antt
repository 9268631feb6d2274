-- ===== src/Core/WorkItem.antt =====
-- ticketbot/core/workitem.py: the work item, its size and its view for predicates.
use ticket_bot.Prelude.{
  Option, none, some, Text, codes, if◌then◌else◌, List, [], ◌∷◌, non_empty, length,
}
use ticket_bot.Predicate.Values.{
  Value, Items, Fields, Python, null, num, str, list, nil, cons, field,
}

pub data Ambiguity : Type 0 where
  low medium high : Ambiguity

pub data Size : Type 0 where
  xs s m l xl : Size

-- A date is the text of its `isoformat()`.
pub record Comment : Type 0 where
  pub author : Text
  pub body : Text
  pub created_at : Option Text
  pub id : Option Text

-- `bytes` is `data`, a sequence of bytes, `path` the text of a path.
pub record Attachment : Type 0 where
  pub filename : Text
  pub content_type : Text
  pub path : Option Text
  pub bytes : Option Text

pub record WorkItem (N : Type 0) : Type 0 where
  pub id : Text
  pub title : Text
  pub description : Text
  pub external_id : Option Text
  pub issue_type : Text
  pub story_points : Option N
  pub labels : List Text
  pub acceptance : Text
  pub status : Option Text
  pub assignee : Option Text
  pub url : Option Text
  pub comments : List Comment
  pub attachments : List Attachment
  pub ambiguity : Option Ambiguity
  pub source_ref : Text
  pub raw : Fields N

abbrev pub external_or : Option Text → Text → Text
external_or none id = id
external_or (some e) id = if non_empty e then e else id

unfoldable pub ambiguity_value : Ambiguity → Text
ambiguity_value low = codes "low"
ambiguity_value medium = codes "medium"
ambiguity_value high = codes "high"

unfoldable pub size_value : Size → Text
size_value xs = codes "xs"
size_value s = codes "s"
size_value m = codes "m"
size_value l = codes "l"
size_value xl = codes "xl"

module _ {N : Type 0} where
  -- `key`
  unfoldable pub key : WorkItem N → Text
  key item = external_or item.external_id item.id

  unfoldable pub size_of : Python N → Option N → Size
  size_of py none = xs
  size_of py (some points) =
      if py.num_le points (py.of_nat 1)
      then xs
      else if py.num_le points (py.of_nat 2)
      then s
      else if py.num_le points (py.of_nat 5)
      then m
      else if py.num_le points (py.of_nat 8)
      then l
      else xl

  -- `size()`
  unfoldable pub size : Python N → WorkItem N → Size
  unfolding size_of
  size py item = size_of py item.story_points

  abbrev pub text_or_null : Option Text → Value N
  text_or_null none = null
  text_or_null (some t) = str t

  abbrev pub number_or_null : Option N → Value N
  number_or_null none = null
  number_or_null (some n) = num n

  abbrev pub ambiguity_or_null : Option Ambiguity → Value N
  ambiguity_or_null none = null
  ambiguity_or_null (some a) = str (ambiguity_value a)

  unfoldable pub texts : List Text → Items N
  texts [] = nil
  texts (t ∷ ts) = cons (str t) (texts ts)

  -- `as_context()`, in front of further fields.
  unfoldable pub as_context : Python N → WorkItem N → Fields N → Fields N
  unfolding key size texts
  as_context py item rest = field (codes "key") (str (key item)) (
      field (codes "external_id") (text_or_null item.external_id) (
        field (codes "title") (str item.title) (
          field (codes "description") (str item.description) (
            field (codes "issue_type") (str item.issue_type) (
              field (codes "story_points") (number_or_null item.story_points) (
                field (codes "labels") (list (texts item.labels)) (
                  field (codes "acceptance") (str item.acceptance) (
                    field (codes "status") (text_or_null item.status) (
                      field (codes "ambiguity") (ambiguity_or_null item.ambiguity) (
                        field (codes "size") (str (size_value (size py item))) (
                          field (codes "url") (text_or_null item.url) (
                            field (codes "comment_count") (num (py.of_nat (length item.comments)))
                              rest))))))))))))
