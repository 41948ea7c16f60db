-- ===== src/Examples/Remotes.antt =====
-- Heads of a remote, and the properties of heads applied to them.
use cetmix_tower.Prelude.{◌≡◌, refl, false, some, ok}
use cetmix_tower.Prelude.Text.{codes}
use cetmix_tower.Git.Remote.{
  branch, github, https, Remote, get_head_type_from_head, git_aggregator_prepare_head,
}
use cetmix_tower.Git.Heads.{behind_slash, pull_request_link, branch_folders_lost}

abbrev remote : Remote
remote = record {
  url = codes "https://github.com/a/b.git";
  url_protocol = some https;
  repo_provider = github;
  is_private = false;
  head = codes "main";
  head_type = branch;
}

pull_request_link_example :
    git_aggregator_prepare_head (record remote {
      head = behind_slash (codes "a/b") (codes "pull/12");
      head_type = get_head_type_from_head (behind_slash (codes "a/b") (codes "pull/12"));
      repo_provider = github;
    })
    ≡ ok (codes "refs/pull/12/head")
pull_request_link_example = pull_request_link remote (codes "a/b") (codes "2") b'1' refl

branch_folders_lost_example :
    git_aggregator_prepare_head (record remote {
      head = behind_slash (codes "feature") (codes "login");
      head_type = branch;
      repo_provider = github;
    })
    ≡ ok (codes "login")
branch_folders_lost_example = branch_folders_lost remote (codes "feature") (codes "ogin") b'l' refl
