-- ===== src/Permissions/Manifest.antt =====
-- The permission manifest: crates/ppb-server/src/permissions/manifest.rs.
use phira_plus_backend.Prelude.{String, Bool, true, false, not, List, [], ◌∷◌, map, select}

pub data Risk : Type 0 where
  low medium high critical : Risk

pub record PermissionDef : Type 0 where
  pub id : String
  pub group : String
  pub label : String
  pub description : String
  pub root_only : Bool
  pub risk : Risk

abbrev perm : String → String → String → String → Bool → Risk → PermissionDef
perm id group label description root_only risk = record {
  id = id;
  group = group;
  label = label;
  description = description;
  root_only = root_only;
  risk = risk;
}

abbrev pub permission_manifest : List PermissionDef
permission_manifest =
    perm "room:view" "room" "查看房间" "查看房间信息/玩家/状态" false low
    ∷ perm "room:kick" "room" "踢出房间玩家" "从房间移除玩家" false medium
    ∷ perm "room:move" "room" "移动玩家" "将玩家移入目标房间" false medium
    ∷ perm "room:start" "room" "开始/取消开始" "控制房间开始或取消" false medium
    ∷ perm "room:config" "room" "配置房间" "锁/循环/隐藏/持久化/换谱/房主等" false medium
    ∷ perm "room:whitelist" "room" "管理白名单" "房间白名单增删查" false medium
    ∷ perm "room:blacklist" "room" "管理黑名单" "房间黑名单增删查" false medium
    ∷ perm "room:manage" "room" "管理房间" "房间级管理操作全集" false high
    ∷ perm "user:view" "user" "查看用户" "查看用户信息" false low
    ∷ perm "user:kick" "user" "踢出玩家" "从服务器断开玩家" false medium
    ∷ perm "user:ban" "user" "封禁玩家" "封禁用户 ID" false high
    ∷ perm "user:ban_ip" "user" "封禁 IP" "封禁玩家 IP" false high
    ∷ perm "user:view_ip_history" "user" "查看 IP 历史" "查看玩家 IP 历史" false high
    ∷ perm "server:view" "server" "查看服务器" "查看服务器状态/统计" false low
    ∷ perm "server:manage" "server" "管理服务器" "常规服务器管理" false high
    ∷ perm "server:update" "server" "更新服务器" "PMP 更新 apply" true critical
    ∷ perm "server:shutdown" "server" "关闭服务器" "关闭 PMP" true critical
    ∷ perm "server:start" "server" "启动服务器" "启动 PMP（受控 Supervisor）" true critical
    ∷ perm "config:view" "config" "查看配置" "查看 PMP/PPB 配置" false low
    ∷ perm "config:reload" "config" "重载配置" "热重载配置" false high
    ∷ perm "config:rollback" "config" "回滚配置" "回滚到历史快照" true critical
    ∷ perm "plugin:view" "plugin" "查看插件" "列出/查看插件" false low
    ∷ perm "plugin:manage" "plugin" "管理插件" "启用/禁用/重载/移除" true high
    ∷ perm "plugin:call" "plugin" "调用插件 API" "plugin.call" false high
    ∷ perm "audit:view" "audit" "查看审计" "查看审计日志" false medium
    ∷ perm "audit:export" "audit" "导出审计" "导出审计 CSV" false medium
    ∷ perm "broadcast:all" "broadcast" "全服广播" "broadcast.all 系统广播" false high
    ∷ perm "broadcast:room" "broadcast" "房间广播" "broadcast.room 系统广播" false medium
    ∷ perm "broadcast:user" "broadcast" "用户广播" "broadcast.user 系统消息" false medium
    ∷ perm "pmp:cli" "pmp" "PMP 控制台" "原始 cli.execute 控制台" false high
    ∷ perm "logs:view" "logs" "查看日志" "查看 PMP 日志与控制台输出" false low
    ∷ perm "notification:send_system" "notification" "系统通知" "向用户发送系统通知" false medium
    ∷ perm "coupon:view" "coupon" "查看兑换码" "查看兑换码" false low
    ∷ perm "coupon:create" "coupon" "创建兑换码" "创建兑换码" false medium
    ∷ perm "coupon:manage" "coupon" "管理兑换码" "管理兑换码状态" true high
    ∷ perm "coupon:revoke" "coupon" "撤销兑换码" "撤销已发放兑换码" true high
    ∷ perm "group:view" "group" "查看用户组" "查看用户组与成员" false low
    ∷ perm "group:create" "group" "创建用户组" "创建自定义用户组" false medium
    ∷ perm "group:edit" "group" "编辑用户组" "改名/描述/权限" false medium
    ∷ perm "group:delete" "group" "删除用户组" "删除用户组" false high
    ∷ perm "group:assign_user" "group" "分配成员" "增删用户组成员" false medium
    ∷ perm "automation:view" "automation" "查看自动化" "查看 Runbook 与运行记录" false low
    ∷ perm "automation:edit" "automation" "编辑自动化" "创建/修改/删除 Runbook" false medium
    ∷ perm "automation:execute" "automation" "执行自动化" "运行 Runbook（逐步骤重鉴权）" false high
    ∷ perm "dashboard:view" "dashboard" "查看仪表盘" "查看管理仪表盘" false low
    ∷ perm "preference:manage" "preference" "管理偏好" "管理用户偏好" false low
    ∷ []

abbrev pub root_wildcard : String
root_wildcard = "*:*"

abbrev ids : List PermissionDef → List String
ids = map (λ p. p.id)

unfoldable pub root_only_ids : List String
root_only_ids = ids (select (λ p. p.root_only) permission_manifest)

unfoldable pub non_root_only_ids : List String
non_root_only_ids = ids (select (λ p. not p.root_only) permission_manifest)
