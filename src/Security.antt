-- ===== src/Security.antt =====
-- The fixes of security issues (uaclient/security.py): what the API says of an issue, which of the
-- installed packages are affected, and how they are upgraded. The API's responses are records: a key
-- that its schema makes optional is an `Option`.
mod Tests
pub mod Package
pub mod Notice
pub mod Merge
pub mod Affected
pub mod Entries
pub mod Latest
pub mod Versions
pub mod Related
pub mod Ask
pub mod Upgrade
pub mod Fix
pub mod Groups
pub mod Prompt
pub mod Issue
pub mod DryRun
pub mod Unchanged
pub mod Grouped
pub mod Verdict
use ubuntu_advantage_client.Base.{String}

abbrev pub ubuntu_standard_updates_pocket : String
ubuntu_standard_updates_pocket = "Ubuntu standard updates"

abbrev pub ua_infra_pocket : String
ua_infra_pocket = "Ubuntu Pro: ESM Infra"

abbrev pub ua_apps_pocket : String
ua_apps_pocket = "Ubuntu Pro: ESM Apps"
