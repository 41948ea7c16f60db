-- ===== src/Git/Remote.antt =====
-- `_get_head_type_from_head`, and the URL and head that are prepared for the git aggregator. An error of the
-- code is a ValidationError.
use cetmix_tower.Prelude.{
  Bool, true, false, not, ◌||◌, Option, some, List, [], ◌∷◌, ◌++◌, Result, ok, err, nat_eq, list_eq,
  if◌then◌else◌, is_empty, contains,
}
use cetmix_tower.Prelude.Text.{Text, codes, split, replace, lower}

pub data HeadType : Type 0 where
  branch pr commit : HeadType

pub data Provider : Type 0 where
  github gitlab bitbucket other : Provider

pub data Protocol : Type 0 where
  ssh https git : Protocol

pub data RemoteError : Type 0 where
  url_required head_number_empty pr_not_supported : RemoteError

pub record Remote : Type 0 where
  pub url : Text
  pub url_protocol : Option Protocol
  pub repo_provider : Provider
  pub is_private : Bool
  pub head : Text
  pub head_type : HeadType

-- `_get_head_type_from_head`
unfoldable pub get_head_type_from_head : Text → HeadType
unfolding split
get_head_type_from_head head =
    let head_parts = split b'/' (lower head) in
    if contains head_parts (codes "pr")
      || contains head_parts (codes "pull")
      || contains head_parts (codes "merge_requests")
      || contains head_parts (codes "pull-requests")
    then pr
    else if contains head_parts (codes "commit") || contains head_parts (codes "commits")
    then commit
    else branch

-- `parts[-1]` of a split, which is never empty
abbrev pub last_part : List Text → Text
last_part [] = []
last_part (part ∷ []) = part
last_part (part ∷ next ∷ parts) = last_part (next ∷ parts)

-- `parts[0]`
abbrev pub first_part : List Text → Text
first_part [] = []
first_part (part ∷ parts) = part

-- the heads of the three providers, by the number that is the head's last part
abbrev pub numbered : Text → Result RemoteError Text → Result RemoteError Text
numbered [] prepared = err head_number_empty
numbered (c ∷ head_number) prepared = prepared

abbrev pub github_head : HeadType → Text → Text
github_head pr head_number = codes "refs/pull/" ++ head_number ++ codes "/head"
github_head _ head_number = head_number

unfoldable pub gitlab_head : HeadType → Text → Text
unfolding split
gitlab_head pr head_number = codes "merge-requests/" ++ head_number ++ codes "/head"
gitlab_head branch head_number = first_part (split b'?' head_number)
gitlab_head commit head_number = first_part (split b'?' head_number)

abbrev pub bitbucket_head : HeadType → Text → Result RemoteError Text
bitbucket_head pr head_number = err pr_not_supported
bitbucket_head _ head_number = ok head_number

abbrev pub head_of : Provider → Text → HeadType → Text → Result RemoteError Text
head_of github head head_type number = numbered number (ok (github_head head_type number))
head_of gitlab head head_type number = numbered number (ok (gitlab_head head_type number))
head_of bitbucket head head_type number = numbered number (bitbucket_head head_type number)
head_of other head head_type number = ok head

-- `_git_aggregator_prepare_head`
unfoldable pub git_aggregator_prepare_head : Remote → Result RemoteError Text
unfolding gitlab_head split
git_aggregator_prepare_head r =
    head_of r.repo_provider r.head r.head_type (last_part (split b'/' r.head))

abbrev pub is_ssh : Option Protocol → Bool
is_ssh (some ssh) = true
is_ssh _ = false

-- the URL with the provider's token
unfoldable pub url_with_token : Provider → Text → Text
unfolding replace
url_with_token github url =
    codes "https://$GITHUB_TOKEN:x-oauth-basic@" ++ replace (codes "https://") [] url
url_with_token gitlab url =
    codes "https://$GITLAB_TOKEN_NAME:$GITLAB_TOKEN@" ++ replace (codes "https://") [] url
url_with_token bitbucket url =
    codes "https://x-oauth-basic:$BITBUCKET_TOKEN@" ++ replace (codes "https://") [] url
url_with_token other url = url

-- `_git_aggregator_prepare_url`
unfoldable pub git_aggregator_prepare_url : Remote → Result RemoteError Text
unfolding url_with_token
git_aggregator_prepare_url r =
    if is_empty r.url
    then err url_required
    else if not r.is_private || is_ssh r.url_protocol
    then ok r.url
    else ok (url_with_token r.repo_provider r.url)
