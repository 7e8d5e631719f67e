-- ===== src/I18n/SimplifiedChinese/PanelRest.antt =====
-- web/lib/i18n/extra-zh.ts: the simplified Chinese texts of the panel, second half.
use wgtemporary_email.Base.{String, [], ◌∷◌}
use wgtemporary_email.Base.Dict.{Dict}

abbrev pub zh_cn_admin_rest : Dict String
zh_cn_admin_rest =
    ("deleteAddressConfirm", "确定删除该地址吗？其下所有邮件也会一并删除，此操作不可恢复。")
    ∷ ("domainsTitle", "域名管理")
    ∷ ("dnsCol", "DNS 检查")
    ∷ ("dnsCheck", "检查 DNS")
    ∷ ("dnsChecking", "检查中…")
    ∷ ("dnsOk", "MX 已指向 {host}（可用）")
    ∷ ("dnsMismatch", "MX 未指向本机：当前 {found}（应为 {expected}）")
    ∷ ("dnsNone", "未查到 MX 记录")
    ∷ ("dnsError", "DNS 查询失败：{err}")
    ∷ ("dnsHint", "域名必须把 MX 记录指向本机才能收到邮件——添加后请在此检查确认。")
    ∷ ("addDomain", "添加域名")
    ∷ ("addDomainPlaceholder", "例如 temp.example.com")
    ∷ ("add", "添加")
    ∷ ("domainDnsHint", "添加后需在 DNS 服务商处为该域名设置 MX 记录指向本服务器，否则无法收信。")
    ∷ ("configuredDomainsTitle", "已配置域名（{n}）")
    ∷ ("domainCol", "域名")
    ∷ ("addressCountCol", "地址数")
    ∷ ("noDomainsConfigured", "未配置域名")
    ∷ ("cannotRemoveLast", "不能删除最后一个域名")
    ∷ ("removeDomain", "移除域名")
    ∷ ("removeDomainConfirm", "确定移除域名 {domain} 吗？该域名下现有地址的邮件仍保留，但 MX 将不再接收发往该域名的新邮件。")
    ∷ ("domainAdded", "已添加域名 {domain}。API 立即生效，MX 收信服务约 15 秒内生效。")
    ∷ ("domainRemoved", "已移除域名 {domain}（受影响的地址 {n} 个）。")
    ∷ ("addFailed", "添加失败，请重试")
    ∷ ("removeFailed", "移除失败，请重试")
    ∷ ("configTitle", "系统配置")
    ∷ ("configHotReloadNote", "修改保存后立即热重载生效，无需重启服务。写入 config.yaml 时会移除其中的注释。")
    ∷ ("mailSection", "邮件与地址")
    ∷ ("mailSectionDesc", "tempmail / server 相关参数")
    ∷ ("maxMsgSizeMb", "单封邮件大小上限 (MB)")
    ∷ ("addressLifetime", "地址有效期 (小时)")
    ∷ ("maxEmailsPerAddress", "每个地址最多邮件数")
    ∷ ("maxStorageMb", "总存储占用上限 (MB，0 不限制)")
    ∷ ("cleanupInterval", "清理任务间隔 (小时)")
    ∷ ("rateLimitSection", "限流（每分钟每 IP）")
    ∷ ("rateLimitDesc", "填 0 表示关闭该限制；修改后立即生效。创建类限流按 IP 计算，同一出口 IP（如公司网络）下的多个用户共用同一额度。")
    ∷ ("rlAddressCreate", "临时地址创建 / 分钟")
    ∷ ("rlPermanentCreate", "长效地址创建 / 分钟")
    ∷ ("rlApiCreate", "API 密钥创建 / 分钟")
    ∷ ("rlSetup", "首次向导 / 分钟")
    ∷ ("rlAdmin", "管理接口 / 分钟")
    ∷ ("rlEmailRead", "邮箱读取与下载 / 分钟")
    ∷ ("minUsernameLength", "用户名最短长度")
    ∷ ("maxUsernameLength", "用户名最长长度")
    ∷ ("storageCapHint", "0 表示不限制；超过上限时清理任务会按“最旧邮件优先”删除，直到低于该值。")
    ∷ ("mailHostname", "邮件服务器主机名")
    ∷ ("hostnameHint", "修改后需重启 MX 容器，SMTP 横幅中的主机名才会更新。")
    ∷ ("tokenSection", "管理令牌")
    ∷ ("tokenSectionDesc", "修改后需使用新令牌重新登录管理面板")
    ∷ ("tokenPlaceholder", "输入新令牌（留空则不修改）")
    ∷ ("tokenHint", "至少 8 个字符，建议 16 个以上")
    ∷ ("switchesSection", "功能开关")
    ∷ ("docsEnabled", "启用 API 文档 (/docs Swagger)")
    ∷ ("allowCustomUsernames", "允许自定义用户名")
    ∷ ("checkDkim", "校验 DKIM")
    ∷ ("checkSpf", "校验 SPF")
    ∷ ("checkDmarc", "校验 DMARC")
    ∷ ("storeResults", "存储校验结果")
    ∷ ("databaseSection", "数据库")
    ∷ ("poolSize", "数据库连接池大小")
    ∷ ("maxOverflow", "连接池最大溢出")
    ∷ ("poolHint", "注意：pool_size / max_overflow 修改后需要重启 API 容器才会真正生效（连接池在启动时创建）。")
    ∷ ("corsSection", "CORS 允许来源")
    ∷ ("corsDesc", "每行一个来源，输入 * 表示允许所有")
    ∷ ("saveReload", "保存并热重载")
    ∷ ("saving", "保存中...")
    ∷ ("nothingToSave", "没有需要保存的修改")
    ∷ ("savedReloaded", "配置已保存并热重载（无需重启服务）")
    ∷ ("restartRequired", "已保存。部分改动（CORS、数据库连接池、单封邮件大小上限）需要重启容器后生效。")
    ∷ ("currentConfigTitle", "当前完整配置（敏感信息已脱敏）")
    ∷ ("saveFailed", "保存失败，请重试")
    ∷ ("intMinError", "必须是 ≥{n} 的整数")
    ∷ ("tokenUpdated", "管理令牌已更新，请使用新令牌重新登录")
    ∷ ("apiKeyTitle", "集成 API 密钥")
    ∷ ("apiKeyDesc", "用于通过 API 创建长效邮箱（POST /api/v1/api/addresses，X-API-Key 请求头）")
    ∷ ("apiKeyStatusConfigured", "已配置")
    ∷ ("apiKeyNotSet", "未配置")
    ∷ ("apiKeyRegenerate", "重新生成")
    ∷ ("apiKeyNew", "新的 API 密钥（仅显示一次，请立即保存）：")
    ∷ ("apiKeyCopy", "复制密钥")
    ∷ ("apiKeyConfirm", "确定重新生成 API 密钥吗？旧密钥将立即失效。")
    ∷ ("tlsTitle", "TLS 证书（Let's Encrypt）")
    ∷ ("tlsEnabledLabel", "启用 TLS/STARTTLS")
    ∷ ("tlsStatusLabel", "状态")
    ∷ ("tlsCertIssued", "证书已签发")
    ∷ ("tlsCertNotIssued", "尚未签发证书")
    ∷ ("tlsExpires", "到期时间：{date}")
    ∷ ("tlsIssuer", "颁发机构：{issuer}")
    ∷ ("tlsEmailLabel", "通知邮箱")
    ∷ ("tlsEmailPlaceholder", "admin@example.com")
    ∷ ("tlsIssueBtn", "签发 / 续期证书")
    ∷ ("tlsIssuing", "签发中…（一般一分钟内完成）")
    ∷ ("tlsIssueSubmitted", "已提交签发任务…")
    ∷ ("tlsIssueSuccess", "证书签发成功，现在可以启用 TLS 了。")
    ∷ ("tlsIssueFailed", "签发失败：{msg}")
    ∷ ("tlsIssueBusy", "已有签发任务进行中")
    ∷ ("tlsAutoRenewNote", "证书会在到期前 30 天自动续期；续期后 MX 无需重启即可生效。")
    ∷ ("tlsHostnameNote", "证书将签发到邮件服务器主机名（{hostname}）。其 A 记录需指向本服务器，且 80 端口需公网可达。")
    ∷ ("tlsJobRunning", "签发任务进行中…")
    ∷ ("tlsLastRenew", "上次续期检查：{date}")
    ∷ ("webHostnameLabel", "面板访问域名")
    ∷ ("webHostnameHint", "留空则通过邮件主机名访问面板。HTTPS 证书会同时覆盖两个域名。")
    ∷ ("mxHostnameNote", "此名称用于邮件路由（DNS 的 MX 记录指向它），请勿将其作为面板访问地址——请在下方设置正式访问域名。")
    ∷ ("webHostnameEmptyNote", "尚未设置面板访问域名。建议使用正式域名（如 mail.example.com）访问面板，而不是 MX 主机名。")
    ∷ ("webHostnameUpdated", "已保存。记得为该域名添加 DNS A 记录并重新签发证书。")
    ∷ ("allowIpAccessLabel", "允许通过 IP / 其他域名访问用户面板")
    ∷ ("allowIpAccessHint", "关闭后，通过非正式域名或 IP 访问用户面板会被重定向到正式域名；管理面板与 API 始终可通过任何地址访问，防止无法关闭域名时被锁死。")
    ∷ ("httpsUrl", "面板 HTTPS 地址：https://{host}")
    ∷ ("certCovers", "证书覆盖：{domains}")
    ∷ ("cleanupTitle", "数据清理")
    ∷ ("cleanupCardTitle", "手动清理过期地址")
    ∷ (
      "cleanupDesc",
      "系统会按配置的周期自动清理（当前每 {h} 小时一次），清理内容包括：过期地址、以及超出总存储上限（{m} MB，0 为不限制）的最旧邮件。也可以在这里立即执行一次。",
    )
    ∷ ("currentAddresses", "当前共 {total} 个地址，其中活跃 {active} 个。")
    ∷ ("runNow", "立即清理")
    ∷ ("cleaning", "清理中...")
    ∷ ("cleanupDone", "清理完成（{time}）")
    ∷ ("deletedAddresses", "删除过期地址：{n} 个")
    ∷ ("deletedEmails", "因超出存储上限删除邮件：{n} 封")
    ∷ ("storageChanged", "存储占用：{a} → {b}")
    ∷ ("cleanupFailed", "清理失败，请重试")
    ∷ ("cleanupConfirm", "立即执行过期地址清理？将删除所有已过期地址及其邮件。")
    ∷ ("autoCleanupRetention", "长效邮箱：超过 {d} 天的邮件自动删除")
    ∷ ("retentionDeletedEmails", "因超过保留期限删除的邮件：{n} 封")
    ∷ ("autoCleanupTitle", "自动清理机制")
    ∷ ("autoCleanupMail", "邮件数据：过期地址（每 {h} 小时）与超出存储上限（{m} MB）的最旧邮件")
    ∷ ("autoCleanupLogs", "容器日志：每个容器自动轮转（10 MB × 3 份，最多 30 MB）")
    ∷ ("autoCleanupBuild", "Docker 构建缓存：每周自动清理")
    ∷ ("autoCleanupApt", "apt 缓存：每月自动清理")
    ∷ ("autoCleanupJournald", "系统日志（journald）：上限 200 MB")
    ∷ []
