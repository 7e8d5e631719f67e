-- ===== src/I18n/SimplifiedChinese/Panel.antt =====
-- web/lib/i18n/extra-zh.ts: the simplified Chinese texts of the panel, first half.
use wgtemporary_email.Base.{String, [], ◌∷◌}
use wgtemporary_email.Base.Dict.{Dict}

abbrev pub zh_cn_admin_first : Dict String
zh_cn_admin_first =
    ("adminPanel", "管理面板")
    ∷ ("dashboard", "仪表盘")
    ∷ ("emails", "邮件管理")
    ∷ ("addresses", "地址管理")
    ∷ ("domains", "域名管理")
    ∷ ("config", "系统配置")
    ∷ ("cleanup", "数据清理")
    ∷ ("userSite", "用户前端")
    ∷ ("logout", "退出登录")
    ∷ ("loginTitle", "管理面板登录")
    ∷ ("loginDesc", "输入 config.yaml 中配置的管理令牌")
    ∷ ("loginPlaceholder", "管理令牌")
    ∷ ("loginBtn", "登录")
    ∷ ("loggingIn", "登录中...")
    ∷ ("loginFailed", "登录失败，请检查网络后重试")
    ∷ ("wrongToken", "管理令牌错误，请核对后重试")
    ∷ ("loginLocalNote", "令牌只保存在浏览器本地，不会上传到任何第三方")
    ∷ ("activeAddresses", "活跃地址")
    ∷ ("totalAddressesSub", "共 {n} 个")
    ∷ ("totalEmails", "邮件总数")
    ∷ ("unreadSub", "未读 {n}")
    ∷ ("emails24h", "近 24 小时邮件")
    ∷ ("attachmentsTotal", "附件数量")
    ∷ ("storageUsage", "存储占用")
    ∷ ("storageCap", "上限 {n} MB")
    ∷ ("storageNoCap", "未设上限")
    ∷ ("uptime", "运行时长")
    ∷ ("lifetimeSub", "地址有效期 {n}h")
    ∷ ("dbHealthy", "数据库正常")
    ∷ ("dbError", "数据库异常")
    ∷ ("configuredDomains", "已配置域名（{n}）")
    ∷ ("noDomains", "未配置域名")
    ∷ ("recentEmails", "最近邮件")
    ∷ ("recentAddresses", "最近地址")
    ∷ ("viewAll", "查看全部")
    ∷ ("noEmails", "暂无邮件")
    ∷ ("noAddresses", "暂无地址")
    ∷ ("active", "活跃")
    ∷ ("expired", "已过期")
    ∷ ("permanent", "长效")
    ∷ ("neverExpires", "永不过期")
    ∷ ("emailsCount", "{n} 封邮件")
    ∷ ("createdSub", "创建于 {time}")
    ∷ ("noSubject", "（无主题）")
    ∷ ("subject", "主题")
    ∷ ("fromCol", "发件人")
    ∷ ("toCol", "收件地址")
    ∷ ("timeCol", "时间")
    ∷ ("sizeCol", "大小")
    ∷ ("actionsCol", "操作")
    ∷ ("statusCol", "状态")
    ∷ ("emailCol", "邮箱地址")
    ∷ ("emailCountCol", "邮件数")
    ∷ ("unreadCol", "未读")
    ∷ ("createdCol", "创建时间")
    ∷ ("expiresCol", "过期时间")
    ∷ ("view", "查看")
    ∷ ("delete", "删除")
    ∷ ("search", "搜索")
    ∷ ("prev", "上一页")
    ∷ ("next", "下一页")
    ∷ ("pageOf", "第 {p} 页 / {n} 页")
    ∷ ("totalItems", "共 {n} 个")
    ∷ ("loading", "加载中...")
    ∷ ("loadFailed", "加载失败，请重试")
    ∷ ("sessionExpired", "登录已失效，请重新登录")
    ∷ ("requestFailed", "请求失败（{status}）")
    ∷ ("tooManyRequests", "请求过于频繁，请稍后再试")
    ∷ ("serverError", "服务器错误，请稍后重试")
    ∷ ("uptimeDaysHours", "{d} 天 {h} 小时")
    ∷ ("uptimeHoursMinutes", "{h} 小时 {m} 分钟")
    ∷ ("uptimeMinutes", "{m} 分钟")
    ∷ ("new", "新")
    ∷ ("emailsTitle", "邮件管理")
    ∷ ("searchEmailsPlaceholder", "搜索主题 / 发件人 / 收件人")
    ∷ ("deleteEmailConfirm", "确定删除这封邮件吗？此操作不可恢复。")
    ∷ ("dkimPass", "DKIM 通过")
    ∷ ("dkimFail", "DKIM 失败")
    ∷ ("attachmentsN", "{n} 个附件")
    ∷ ("attachments", "附件")
    ∷ ("noContent", "无内容")
    ∷ ("viewRawHeaders", "查看原始邮件头")
    ∷ ("deleteThisEmail", "删除此邮件")
    ∷ ("addressesTitle", "地址管理")
    ∷ ("mailboxes", "长效地址")
    ∷ ("mbTitle", "长效地址管理")
    ∷ ("mbDesc", "永不过期的邮箱：地址永久保留，邮件在保留期结束后自动删除。")
    ∷ ("mbTotal", "长效地址")
    ∷ ("mbEmails", "邮件总数")
    ∷ ("mbStorage", "占用存储")
    ∷ ("mbWithEmails", "{n} 个有邮件")
    ∷ ("mbUnreadSub", "{n} 封未读")
    ∷ ("mbCap", "上限 {n}")
    ∷ ("mbCapUnlimited", "未设置数量上限")
    ∷ ("mbRetentionTitle", "邮件保留期")
    ∷ ("mbRetentionDays", "{n} 天")
    ∷ ("mbRunRetention", "立即清理一次")
    ∷ ("mbRetentionRan", "保留期清理删除了 {n} 封邮件。")
    ∷ ("mbCreateTitle", "创建长效地址")
    ∷ ("mbCreateDesc", "访问令牌只显示一次——请转交给使用者，它是读取该邮箱的唯一凭证。")
    ∷ ("mbUsernamePlaceholder", "用户名")
    ∷ ("mbDomainPlaceholder", "域名")
    ∷ ("mbCreateBtn", "创建")
    ∷ ("mbCreating", "创建中...")
    ∷ ("mbNeedUsername", "请先填写用户名。")
    ∷ ("mbCreated", "已创建 {email}")
    ∷ ("mbCreatedNote", "请立即保存访问令牌，之后不再显示。")
    ∷ ("mbCopyToken", "复制令牌")
    ∷ ("mbCopied", "已复制")
    ∷ ("mbCreatedDialogTitle", "邮箱已创建")
    ∷ ("mbListTitle", "长效地址列表（{n}）")
    ∷ ("mbSearchPlaceholder", "搜索地址...")
    ∷ ("mbSizeCol", "占用")
    ∷ ("mbLastEmailCol", "最近收信")
    ∷ ("mbNever", "暂无")
    ∷ ("mbPurgeEmails", "清除邮件（保留地址）")
    ∷ ("mbPurgeConfirm", "确定清除 {email} 的全部邮件吗？地址会保留。")
    ∷ ("mbPurged", "已从 {email} 清除 {n} 封邮件。")
    ∷ ("mbDelete", "删除邮箱")
    ∷ ("mbDeleteConfirm", "确定删除 {email} 吗？地址及其全部邮件将被永久删除。")
    ∷ ("mbDeleted", "已删除 {email}。")
    ∷ ("mbNoMailboxes", "还没有长效地址")
    ∷ ("searchAddressesPlaceholder", "搜索邮箱地址")
    ∷ ("createdExpiresSub", "创建于 {a} · 过期于 {b}")
    ∷ ("createdPermanentSub", "创建于 {a} · 长效邮箱")
    ∷ ("emailsTotal", "共 {n} 封邮件")
    ∷ ("viewInEmails", "在邮件管理中查看")
    ∷ ("deleteAddressBtn", "删除该地址及其所有邮件")
    ∷ []
